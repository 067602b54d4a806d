-- ===== src/Operator/Controller/Backups/Oldest.antt =====
-- The time of the first recovery, and the volume snapshots of an instance
-- (tembo-operator/src/controller.rs).
use tembo.Prelude.{
  ℕ, ◌≤◌, ◌≡◌, refl, nat_eq, String, Bool, true, false, Bool-cases, Option, none, some, List, [],
  ◌∷◌, any, All, arith, ltb, inl, inr,
}
use mathlib.Core.Path.{subst}
use tembo.Operator.Api.{BackupResource}
use tembo.Operator.Controller.Backups.{process_backups, completed_at, min}

-- No completed backup ended before the time.
abbrev pub IsEarliest : (String → Option ℕ) → List BackupResource → ℕ → Type 0
IsEarliest parse backups time =
    All (λ found. (t : ℕ) → completed_at parse found ≡ some t → time ≤ t) backups

abbrev pub is_at : ℕ → Option ℕ → Bool
is_at time none = false
is_at time (some t) = nat_eq t time

-- Some completed backup ended at the time.
abbrev pub is_reached : (String → Option ℕ) → ℕ → BackupResource → Bool
is_reached parse time found = is_at time (completed_at parse found)

module _ (parse : String → Option ℕ) where
  IsEarliest-before :
      (backups : List BackupResource) (time least : ℕ)
      → time ≤ least
      → IsEarliest parse backups least
      → IsEarliest parse backups time
  IsEarliest-before [] time least h k = tt
  IsEarliest-before (found ∷ later) time least h (first, rest) =
      ((λ t e. let bound = first t e in omega arith), IsEarliest-before later time least h rest)

  min-none : (first rest : Option ℕ) → min first rest ≡ none → (first ≡ none) × (rest ≡ none)
  min-none none rest h = (refl, h)
  min-none (some t) none h = cc
  min-none (some t) (some least) h = ground arith

  none_completed :
      (backups : List BackupResource) (time : ℕ)
      → process_backups parse backups ≡ none
      → IsEarliest parse backups time
  unfolding process_backups
  none_completed [] time h = tt
  none_completed (found ∷ later) time h =
      let (e, f) = min-none (completed_at parse found) (process_backups parse later) h in
      ((λ t k. cc), none_completed later time f)

  -- The first of a list and the earliest of the rest.
  least_of_two :
      (found : BackupResource) (later : List BackupResource) (time : ℕ) (first rest : Option ℕ)
      → completed_at parse found ≡ first
      → process_backups parse later ≡ rest
      → ((least : ℕ)
          → rest ≡ some least
          → (any (is_reached parse least) later ≡ true) × IsEarliest parse later least)
      → min first rest ≡ some time
      → (any (is_reached parse time) (found ∷ later) ≡ true) × IsEarliest parse (found ∷ later) time
  least_of_two found later time none rest e f ih g =
      let (there, bound) = ih time g in (rw e there, ((λ t k. cc), bound))
  least_of_two found later time (some t) none e f ih g =
      (rw e (ground arith), ((λ u k. ground arith), none_completed later time f))
  least_of_two found later time (some t) (some least) e f ih g =
      let (there, bound) = ih least refl in
      elim (Bool-cases (ltb least t)) [
        | inl smaller ↦
            let same : least ≡ time = ground arith in
            let start : any (is_reached parse time) later ≡ true =
              subst (λ u. any (is_reached parse u) later ≡ true) same there in
            (
              ground arith,
              ((λ u k. ground arith), IsEarliest-before later time least (ground arith) bound),
            )
        | inr greater ↦ (
          rw e (ground arith),
          ((λ u k. ground arith), IsEarliest-before later time least (ground arith) bound),
        )
      ]

  -- The time of the first recovery is that of a completed backup, and no completed backup ended
  -- before it.
  pub process_backups-least :
      (backups : List BackupResource) (time : ℕ)
      → process_backups parse backups ≡ some time
      → (any (is_reached parse time) backups ≡ true) × IsEarliest parse backups time
  unfolding process_backups
  process_backups-least [] time h = cc
  process_backups-least (found ∷ later) time h =
      least_of_two found later time (completed_at parse found) (process_backups parse later) refl
        refl (process_backups-least later) h
