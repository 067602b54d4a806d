-- ===== src/Conductor/Lacks.antt =====
-- Which calls a round makes, and which it does not (conductor/src/main.rs).
use tembo.Prelude.{
  List, [], ◌∷◌, ◌≡◌, ◌≢◌, refl, ◌∙◌, ◌⊎◌, inl, inr, Bool, true, false, ◌||◌, ◌++◌, any, any-append,
  arith,
}
use tembo.Conductor.Round.{
  Round, Effect, Exit, done, continue, failed, archive, send, create_cloudformation,
  delete_cloudformation, create_gcp_binding, delete_gcp_binding, create_azure_binding,
  delete_azure_binding, create_namespace, create_or_update, delete_coredb, delete_namespace,
  restart_coredb, insert_deleted, catch, ◌>>=◌,
}

abbrev pub is_archive : Effect → Bool
is_archive (archive _) = true
is_archive _ = false

-- The calls that settle a message: it is archived, or answered.
abbrev pub is_settling : Effect → Bool
is_settling (archive _) = true
is_settling (send _) = true
is_settling _ = false

abbrev pub is_record : Effect → Bool
is_record (insert_deleted _) = true
is_record _ = false

-- The calls that settle a message or record a deletion.
abbrev pub is_closing : Effect → Bool
is_closing (archive _) = true
is_closing (send _) = true
is_closing (insert_deleted _) = true
is_closing _ = false

-- The calls that change the cluster or the cloud.
abbrev pub is_change : Effect → Bool
is_change (create_cloudformation _ _ _) = true
is_change (delete_cloudformation _) = true
is_change (create_gcp_binding _) = true
is_change (delete_gcp_binding _) = true
is_change (create_azure_binding _) = true
is_change (delete_azure_binding _) = true
is_change (create_namespace _ _ _) = true
is_change (create_or_update _ _) = true
is_change (delete_coredb _) = true
is_change (delete_namespace _) = true
is_change (restart_coredb _ _) = true
is_change _ = false

abbrev pub Lacks {a} : {A : Type a} → (Effect → Bool) → Round A → Type 0
Lacks p m = any p m.0 ≡ false

-- The second predicate is the weaker one.
abbrev pub Weakens : (Effect → Bool) → (Effect → Bool) → Type 0
Weakens p q = (e : Effect) → q e ≡ false → p e ≡ false

pub any-Weakens :
    (p q : Effect → Bool) (es : List Effect) → Weakens p q → any q es ≡ false → any p es ≡ false
any-Weakens p q [] w h = refl
any-Weakens p q (e ∷ es) w h =
    let first : p e ≡ false = w e (ground (arith, h)) in
    let rest : any p es ≡ false = any-Weakens p q es w (ground (arith, h)) in
    ground (arith, first, rest)

pub both_false : (b c : Bool) → b ≡ false → c ≡ false → (b || c) ≡ false
both_false b c h k = ground arith

module _ {a b} {A : Type a} {B : Type b} where
  pub Lacks->>= :
      (p : Effect → Bool) (m : Round A) (f : A → Round B)
      → Lacks p m
      → ((x : A) → Lacks p (f x))
      → Lacks p (m >>= f)
  Lacks->>= p (es, done x) f h k = any-append p es (f x).0 ∙ both_false _ _ h (k x)
  Lacks->>= p (es, continue) f h k = h
  Lacks->>= p (es, failed e) f h k = h

  -- A round goes on with a value, or makes no more calls.
  pub >>=-cases :
      (m : Round A) (f : A → Round B)
      → ((x : A) × (m.1 ≡ done x) × ((m >>= f).0 ≡ m.0 ++ (f x).0) × ((m >>= f).1 ≡ (f x).1))
        ⊎ (((m >>= f).0 ≡ m.0) × ((x : A) → m.1 ≢ done x) × ((y : B) → (m >>= f).1 ≢ done y))
  >>=-cases (es, done x) f = inl (x, refl, refl, refl)
  >>=-cases (es, continue) f = inr (refl, λ x h. cc, λ y h. cc)
  >>=-cases (es, failed e) f = inr (refl, λ x h. cc, λ y h. cc)

-- What holds of the value that a round ends with.
abbrev pub Ends {a} : {A : Type a} → (A → Type 0) → Round A → Type a
Ends {A = A} P m = (x : A) → m.1 ≡ done x → P x

pub done-injective {a} : {A : Type a} {x y : A} → ◌≡◌ {A = Exit A} (done x) (done y) → x ≡ y
done-injective h = cc

pub Ends->>= {a b} :
    {A : Type a} {B : Type b} (P : B → Type 0) (m : Round A) (f : A → Round B)
    → ((x : A) → Ends P (f x))
    → Ends P (m >>= f)
Ends->>= P (es, done x) f h = h x
Ends->>= P (es, continue) f h = λ y k. cc
Ends->>= P (es, failed e) f h = λ y k. cc

-- What holds of the value of a part may be used in the rest.
pub Ends-seq {a b} :
    {A : Type a} {B : Type b} (Q : A → Type 0) (P : B → Type 0) (m : Round A) (f : A → Round B)
    → Ends Q m
    → ((x : A) → Q x → Ends P (f x))
    → Ends P (m >>= f)
Ends-seq Q P (es, done x) f q h = h x (q x refl)
Ends-seq Q P (es, continue) f q h = λ y k. cc
Ends-seq Q P (es, failed e) f q h = λ y k. cc

pub Lacks-catch {a} : {A : Type a} (p : Effect → Bool) (m : Round A) → Lacks p m → Lacks p (catch m)
Lacks-catch p (es, x) h = h
