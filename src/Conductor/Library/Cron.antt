-- ===== src/Conductor/Library/Cron.antt =====
-- The schedule that the conductor gives an instance is one that the operator takes
-- (conductor/src/lib.rs and tembo-operator/src/cloudnativepg/cnpg.rs).
use Prim.Native.Char.{code}
use Prim.Native.String
use text.Mathlib.TextLemmas.{nil-append, cons-append, append_assoc}
use tembo.Prelude.{
  if◌then◌else◌, ◌+◌, ℕ, zero, suc, ◌<◌, ◌%◌, String, ◌≡◌, ◌∙◌, refl, sym, Bool, true, not, ◌&&◌,
  some, [], ◌∷◌, arith, nat_eq, split_char, join,
}
use tembo.Prelude.Int.{show, parse_i32}
use tembo.Prelude.Text.Split.{Without, split-append}
use tembo.Operator.Types.{CoreDb}
use tembo.Operator.Cnpg.Schedule.{
  is_term, all_terms, schedule_expression_from_cdb, schedule_of, six_terms,
}
use tembo.Conductor.Library.Instance.{generate_cron_expression}

-- `Without` as a test.
without : ℕ → String → Bool
without sep String.[] = true
without sep (String.◌∷◌ c s) = not (nat_eq (code c) sep) && without sep s

without_sound : (sep : ℕ) (s : String) → without sep s ≡ true → Without sep s
unfolding without
without_sound sep String.[] h = tt
without_sound sep (String.◌∷◌ c s) h = (ground arith, without_sound sep s (ground arith))

-- What is printed for a number is a term without a space in it.
is_fine : ℕ → Bool
is_fine n = without 32 (show n) && is_term (show n)

-- How many of the numbers that come before one fail the test.
misprints : ℕ → ℕ
misprints zero = 0
misprints (suc minute) = misprints minute + (if is_fine minute then 0 else 1)

none_misprinted : misprints 60 ≡ 0
unfolding misprints is_fine without is_term show parse_i32
none_misprinted = refl

fine_of_none : (bound minute : ℕ) → minute < bound → misprints bound ≡ 0 → is_fine minute ≡ true
unfolding misprints
fine_of_none zero minute below h = elim below [ ]
fine_of_none (suc bound) minute below h = ground (arith, fine_of_none bound minute)

fine : (n : ℕ) → n < 60 → is_fine n ≡ true
fine n h = fine_of_none 60 n h none_misprinted

fine-Without : (n : ℕ) → n < 60 → Without 32 (show n)
unfolding is_fine
fine-Without n h = let e = fine n h in without_sound 32 (show n) (ground arith)

fine-is_term : (n : ℕ) → n < 60 → is_term (show n) ≡ true
unfolding is_fine
fine-is_term n h = let e = fine n h in ground arith

-- The terms of the expression.
split-cron :
    (minute hour : String)
    → Without 32 minute
    → Without 32 hour
    → split_char 32 (String.◌++◌ minute (String.◌++◌ " " (String.◌++◌ hour " * * *")))
      ≡ minute ∷ hour ∷ "*" ∷ "*" ∷ "*" ∷ []
unfolding split_char
split-cron minute hour h k =
    rw (cons-append, nil-append)
      (rw (split-append " " minute (String.◌++◌ hour " * * *") h refl)
        (rw (split-append " " hour "* * *" k refl) refl))

zero-is_term : is_term "0" ≡ true
unfolding is_term
zero-is_term = refl

star-is_term : is_term "*" ≡ true
unfolding is_term
star-is_term = refl

schedule_of-terms :
    (minute hour : String)
    → is_term minute ≡ true
    → is_term hour ≡ true
    → schedule_of (six_terms (minute ∷ hour ∷ "*" ∷ "*" ∷ "*" ∷ []))
      ≡ join " " ("0" ∷ minute ∷ hour ∷ "*" ∷ "*" ∷ "*" ∷ [])
unfolding all_terms
schedule_of-terms minute hour h k = rw (h, k, zero-is_term, star-is_term) refl

with_seconds :
    (minute hour : String)
    → join " " ("0" ∷ minute ∷ hour ∷ "*" ∷ "*" ∷ "*" ∷ [])
      ≡ String.◌++◌ "0 " (String.◌++◌ minute (String.◌++◌ " " (String.◌++◌ hour " * * *")))
unfolding join
with_seconds minute hour =
    sym (append_assoc "0" " " (String.◌++◌ minute (String.◌++◌ " " (String.◌++◌ hour " * * *"))))

-- A schedule that the conductor makes for an instance is taken by the operator as it is, with the
-- seconds before it, and names a minute of an hour of each day, whatever the hash is.
pub schedule_expression_from_cdb-cron :
    (hash : String → ℕ) (input : String) (cdb : CoreDb)
    → cdb.spec.backup.schedule ≡ some (generate_cron_expression hash input)
    → (minute : ℕ) × (hour : ℕ) × (minute < 60)
      × (hour < 24)
      × (generate_cron_expression hash input
          ≡ join " " (show minute ∷ show hour ∷ "*" ∷ "*" ∷ "*" ∷ []))
      × (schedule_expression_from_cdb cdb ≡ String.◌++◌ "0 " (generate_cron_expression hash input))
unfolding schedule_expression_from_cdb generate_cron_expression join
schedule_expression_from_cdb-cron hash input cdb h =
    let minute : ℕ = hash input % 60 in
    let hour : ℕ = hash input % 24 in
    (
      minute,
      hour,
      omega arith,
      omega arith,
      refl,
      rw h (
            rw
              (split-cron (show minute) (show hour) (fine-Without minute (omega arith))
                (fine-Without hour (omega arith)))
              (schedule_of-terms (show minute) (show hour) (fine-is_term minute (omega arith))
                (fine-is_term hour (omega arith))))
          ∙ with_seconds (show minute) (show hour),
    )
