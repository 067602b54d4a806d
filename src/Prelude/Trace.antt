-- ===== src/Prelude/Trace.antt =====
-- Computations that make calls: the calls made, in order, and how the computation ends. What a
-- call answers is not part of this: it is a value that the computation is given.
use mathlib.Core.Path.{◌≡◌, refl, sym, ap, subst, ◌∙◌}
use mathlib.Core.Logic.{◌⊎◌, inl, inr}
use mathlib.Core.Bool.{Bool, true, false, ◌||◌}
use mathlib.Core.List.{List, [], ◌∷◌, ◌++◌}
use native.Mathlib.Omega.{arith}
use mathlib.Core.Option.{Option, none, some}
use tembo.Prelude.Result.{Result, ok, err, ok_or}
use tembo.Prelude.Tests.{if◌then◌else◌, if-holds}
use tembo.Prelude.Lists.{any, any-append}

abbrev pub Trace {c e a} : Type c → Type e → Type a → Type (c ⊔ e ⊔ a)
Trace Call Err Val = List Call × Result Err Val

module _ {c e a} {Call : Type c} {Err : Type e} {Val : Type a} where
  abbrev pub pure : Val → Trace Call Err Val
  pure x = ([], ok x)

  abbrev pub fail : Err → Trace Call Err Val
  fail problem = ([], err problem)

  -- A call that `?` follows.
  abbrev pub call : Call → Result Err Val → Trace Call Err Val
  call asked answer = (asked ∷ [], answer)

  -- A value, or an early return with an error.
  abbrev pub lift : Result Err Val → Trace Call Err Val
  lift res = ([], res)

  -- An operation whose errors are matched on.
  abbrev pub catch : Trace Call Err Val → Trace Call Err (Result Err Val)
  catch (asked, res) = (asked, ok res)

module _ {c e} {Call : Type c} {Err : Type e} where
  -- A call whose answer is dropped.
  abbrev pub tell : Call → Trace Call Err (Unit {0})
  tell asked = (asked ∷ [], ok tt)

module _ {c e a b} {Call : Type c} {Err : Type e} {Val : Type a} {Next : Type b} where
  infixl 5 ◌>>=◌
  abbrev pub ◌>>=◌ : Trace Call Err Val → (Val → Trace Call Err Next) → Trace Call Err Next
  (asked, err problem) >>= next = (asked, err problem)
  (asked, ok val) >>= next = (asked ++ (next val).0, (next val).1)

module _ {c e b} {Call : Type c} {Err : Type e} {Next : Type b} where
  infixl 5 ◌>>◌
  abbrev pub ◌>>◌ : Trace Call Err (Unit {0}) → Trace Call Err Next → Trace Call Err Next
  (asked, err problem) >> next = (asked, err problem)
  (asked, ok _) >> next = (asked ++ next.0, next.1)

-- `for` over a list, with a body that may fail.
unfoldable pub for_each {c e a} :
    {Call : Type c} {Err : Type e} {Val : Type a}
    → (Val → Trace Call Err (Unit {0}))
    → List Val
    → Trace Call Err (Unit {0})
for_each body [] = pure tt
for_each body (x ∷ xs) = body x >>= λ _. for_each body xs

-- No call is one of these.
pub record Lacks {c e a} {Call : Type c} {Err : Type e} {Val : Type a} (p : Call → Bool)
    (m : Trace Call Err Val) : Type 0 where
  pub made : any p m.0 ≡ false

both_false : (b c : Bool) → b ≡ false → c ≡ false → (b || c) ≡ false
both_false b c h k = ground arith

either_true : (b c : Bool) → (b || c) ≡ true → (b ≡ true) ⊎ (c ≡ true)
either_true true c h = inl refl
either_true false c h = inr h

module _ {c e} {Call : Type c} {Err : Type e} where
  pub Lacks-then {a b} :
      {Val : Type a} {Next : Type b} (p : Call → Bool) (m : Trace Call Err Val)
      (f : Val → Trace Call Err Next)
      → Lacks p m
      → ((x : Val) → m.1 ≡ ok x → Lacks p (f x))
      → Lacks p (m >>= f)
  Lacks-then p (asked, ok x) f h k = record {
    made = any-append p asked (f x).0 ∙ both_false _ _ h.made (k x refl).made;
  }
  Lacks-then p (asked, err problem) f h k = record { made = h.made }

  pub Lacks-seq {b} :
      {Next : Type b} (p : Call → Bool) (m : Trace Call Err (Unit {0})) (n : Trace Call Err Next)
      → Lacks p m
      → Lacks p n
      → Lacks p (m >> n)
  Lacks-seq p (asked, ok x) n h k = record {
    made = any-append p asked n.0 ∙ both_false _ _ h.made k.made;
  }
  Lacks-seq p (asked, err problem) n h k = record { made = h.made }

  pub Lacks-lift {a} :
      {Val : Type a} (p : Call → Bool) (res : Result Err Val) → Lacks {Call = Call} p (lift res)
  Lacks-lift p res = record { made = refl }

  pub Lacks-call {a} :
      {Val : Type a} (p : Call → Bool) (asked : Call) (answer : Result Err Val)
      → p asked ≡ false
      → Lacks p (call asked answer)
  Lacks-call p asked answer h = record { made = rw h refl }

  pub Lacks-if {a} :
      {Val : Type a} (p : Call → Bool) (b : Bool) (m n : Trace Call Err Val)
      → (b ≡ true → Lacks p m)
      → (b ≡ false → Lacks p n)
      → Lacks p (if b then m else n)
  Lacks-if p b m n h k = if-holds (Lacks p) b m n h k

  pub Lacks-for_each {a} :
      {Val : Type a} (p : Call → Bool) (body : Val → Trace Call Err (Unit {0})) (xs : List Val)
      → ((x : Val) → Lacks p (body x))
      → Lacks p (for_each body xs)
  unfolding for_each
  Lacks-for_each p body [] h = record { made = refl }
  Lacks-for_each p body (x ∷ xs) h =
      Lacks-then p (body x) (λ _. for_each body xs) (h x) (λ _ _. Lacks-for_each p body xs h)

  -- What fails makes the rest fail with the same error, after the same calls.
  pub >>=-err {a b} :
      {Val : Type a} {Next : Type b} (m : Trace Call Err Val) (f : Val → Trace Call Err Next)
      {problem : Err}
      → m.1 ≡ err problem
      → ◌≡◌ {A = Trace Call Err Next} (m >>= f) (m.0, err problem)
  >>=-err (asked, ok x) f h = cc
  >>=-err (asked, err problem) f h = cc

  -- An ending with a value needs one of each part.
  pub >>=-ok {a b} :
      {Val : Type a} {Next : Type b} (m : Trace Call Err Val) (f : Val → Trace Call Err Next)
      {y : Next}
      → (m >>= f).1 ≡ ok y
      → (x : Val) × (m.1 ≡ ok x) × ((f x).1 ≡ ok y)
  >>=-ok (asked, ok x) f h = (x, refl, h)
  >>=-ok (asked, err problem) f h = cc

  -- A call of the whole is one of a part.
  pub made-then {a b} :
      {Val : Type a} {Next : Type b} (p : Call → Bool) (m : Trace Call Err Val)
      (f : Val → Trace Call Err Next)
      → any p (m >>= f).0 ≡ true
      → (any p m.0 ≡ true) ⊎ ((x : Val) × (m.1 ≡ ok x) × (any p (f x).0 ≡ true))
  made-then p (asked, err problem) f h = inl h
  made-then p (asked, ok x) f h =
      let parts : (any p asked || any p (f x).0) ≡ true = sym (any-append p asked (f x).0) ∙ h in
      elim (either_true (any p asked) (any p (f x).0) parts) [
        | inl here ↦ inl here
        | inr there ↦ inr (x, refl, there)
      ]

-- What holds of the value that a computation ends with.
pub record Ends {c e a} {Call : Type c} {Err : Type e} {Val : Type a} (P : Val → Type 0)
    (m : Trace Call Err Val) : Type (e ⊔ a) where
  pub ended : (x : Val) → m.1 ≡ ok x → P x

module _ {c e} {Call : Type c} {Err : Type e} where
  pub Ends-then {a b} :
      {Val : Type a} {Next : Type b} (P : Next → Type 0) (m : Trace Call Err Val)
      (f : Val → Trace Call Err Next)
      → ((x : Val) → Ends P (f x))
      → Ends P (m >>= f)
  Ends-then P (asked, ok x) f h = record { ended = λ y k. (h x).ended y k }
  Ends-then P (asked, err problem) f h = record { ended = λ y k. cc }

  pub Ends-seq {b} :
      {Next : Type b} (P : Next → Type 0) (m : Trace Call Err (Unit {0})) (n : Trace Call Err Next)
      → Ends P n
      → Ends P (m >> n)
  Ends-seq P (asked, ok x) n h = record { ended = λ y k. h.ended y k }
  Ends-seq P (asked, err problem) n h = record { ended = λ y k. cc }

  pub Ends-pure {a} :
      {Val : Type a} (P : Val → Type 0) (x : Val) → P x → Ends {Call = Call} {Err = Err} P (pure x)
  Ends-pure P x h = record { ended = λ y k. let same : x ≡ y = cc in subst P same h }

-- `ok_or` of what is there.
pub lift-some {c e a b} :
    {Call : Type c} {Err : Type e} {Val : Type a} {Next : Type b} (problem : Err) (o : Option Val)
    (x : Val) (f : Val → Trace Call Err Next)
    → o ≡ some x
    → (lift {Call = Call} (ok_or problem o) >>= f) ≡ f x
lift-some problem none x f h = cc
lift-some problem (some y) x f h = let same : y ≡ x = cc in ap f same
