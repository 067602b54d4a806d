-- ===== src/Operator/AppService/EnvVars/Refined.antt =====
-- The manager of a container's environment against a list of entries
-- (tembo-operator/src/app_service/manager.rs).
use tembo.Prelude.{
  ℕ, String, suc, ◌≡◌, ◌∙◌, refl, ap, sym, Option, none, some, [], ◌∷◌, ◌++◌, map, inl, inr, arith,
  eq_iff, length, ◌==◌, if◌then◌else◌, Option-cases, Bool-cases,
}
use tembo.Prelude.BTreeMap
use tembo.Prelude.BTreeMap.{get-insert}
use tembo.Operator.Types.AppServices.{EnvVar}
use tembo.Operator.AppService.EnvVars.{
  EnvVarManager, new, write_at, set_at, set, set_all, Entries, put, put_all,
}

abbrev next : Option ℕ → Option ℕ
next none = none
next (some n) = some (suc n)

index_of : String → Entries → Option ℕ
index_of key [] = none
index_of key ((k, v) ∷ es) = if k == key then some 0 else next (index_of key es)

record Refines (m : EnvVarManager) (es : Entries) : Type 0 where
  vars_same : m.vars ≡ map (λ e. e.1) es
  lookup_same : (key : String) → BTreeMap.get key m.lookup ≡ index_of key es

next-none : (o : Option ℕ) → next o ≡ none → o ≡ none
next-none none h = refl
next-none (some n) h = cc

next-some : (o : Option ℕ) (n : ℕ) → next o ≡ some n → (k : ℕ) × (o ≡ some k) × (n ≡ suc k)
next-some none n h = cc
next-some (some k) n h = (k, refl, cc)

put_absent :
    (key : String) (value : EnvVar) (es : Entries)
    → index_of key es ≡ none
    → put key value es ≡ es ++ (key, value) ∷ []
unfolding index_of put
put_absent key value [] h = refl
put_absent key value ((k, v) ∷ es) h = elim (Bool-cases (k == key)) [
  | inl e ↦ let there : ◌≡◌ {A = Option ℕ} (some 0) none = rw (e, if◌then◌else◌) at h in cc
  | inr e ↦
      rw (e, if◌then◌else◌)
        (ap (λ l. (k, v) ∷ l)
          (put_absent key value es (next-none (index_of key es) (rw (e, if◌then◌else◌) at h))))
]

index_of-append :
    (j key : String) (value : EnvVar) (es : Entries)
    → index_of key es ≡ none
    → index_of j (es ++ (key, value) ∷ []) ≡ (if key == j then some (length es) else index_of j es)
unfolding index_of
index_of-append j key value [] h = refl
index_of-append j key value ((k, v) ∷ es) h =
    ground (arith, eq_iff k j, eq_iff k key, eq_iff key j, index_of-append j key value es)

write_at-put :
    (key : String) (value : EnvVar) (es : Entries) (n : ℕ)
    → index_of key es ≡ some n
    → write_at n value (map (λ e. e.1) es) ≡ some (map (λ e. e.1) (put key value es))
unfolding index_of put write_at
write_at-put key value [] n h = cc
write_at-put key value ((k, v) ∷ es) n h = elim (Bool-cases (k == key)) [
  | inl e ↦
      let here : 0 ≡ n =
        let eq : ◌≡◌ {A = Option ℕ} (some 0) (some n) = rw (e, if◌then◌else◌) at h in cc in
      rw (e, sym here) refl
  | inr e ↦
      let later = next-some (index_of key es) n (rw (e, if◌then◌else◌) at h) in
      rw (e, later.2, write_at-put key value es later.0 later.1) refl
]

index_of-put :
    (j key : String) (value : EnvVar) (es : Entries) (n : ℕ)
    → index_of key es ≡ some n
    → index_of j (put key value es) ≡ index_of j es
unfolding index_of put
index_of-put j key value [] n h = cc
index_of-put j key value ((k, v) ∷ es) n h = elim (Bool-cases (k == key)) [
  | inl e ↦ rw (e, if◌then◌else◌) refl
  | inr e ↦
      let later = next-some (index_of key es) n (rw (e, if◌then◌else◌) at h) in
      rw (e, index_of-put j key value es later.0 later.1) refl
]

values_append :
    (es : Entries) (key : String) (value : EnvVar)
    → map (λ e. e.1) (es ++ (key, value) ∷ []) ≡ map (λ e. e.1) es ++ value ∷ []
values_append [] key value = refl
values_append ((k, v) ∷ es) key value = ap (λ l. v ∷ l) (values_append es key value)

length-values : (es : Entries) → length (map (λ e. e.1) es) ≡ length es
length-values [] = refl
length-values (e ∷ es) = ap suc (length-values es)

set-absent :
    (key : String) (value : EnvVar) (m : EnvVarManager) (es : Entries)
    → Refines m es
    → index_of key es ≡ none
    → Refines
        (record {
          vars = m.vars ++ value ∷ [];
          lookup = BTreeMap.insert key (length m.vars) m.lookup;
        })
        (put key value es)
set-absent key value m es h absent = record {
  vars_same = rw (put_absent key value es absent, h.vars_same) (sym (values_append es key value));
  lookup_same = λ j.
      let same : length m.vars ≡ length es = ap length h.vars_same ∙ length-values es in
      rw
        (
          get-insert,
          put_absent key value es absent,
          index_of-append j key value es absent,
          same,
          h.lookup_same j,
        )
        refl;
}

set-Refines :
    (key : String) (value : EnvVar) (m : EnvVarManager) (es : Entries)
    → Refines m es
    → (m' : EnvVarManager) × (set key value m ≡ some m') × Refines m' (put key value es)
unfolding set
set-Refines key value m es h = elim (Option-cases (index_of key es)) [
  | inl absent ↦
      (_, ap (set_at key value m) (h.lookup_same key ∙ absent), set-absent key value m es h absent)
  | inr (n, there) ↦ (
    record { vars = map (λ e. e.1) (put key value es); lookup = m.lookup },
    rw (h.lookup_same key, there, h.vars_same, write_at-put key value es n there) refl,
    record {
      vars_same = refl;
      lookup_same = λ j. h.lookup_same j ∙ sym (index_of-put j key value es n there);
    },
  )
]

set_all-Refines :
    (ds : Entries) (m : EnvVarManager) (es : Entries)
    → Refines m es
    → (m' : EnvVarManager) × (set_all ds m ≡ some m') × Refines m' (put_all ds es)
unfolding set_all put_all
set_all-Refines [] m es h = (m, refl, h)
set_all-Refines ((k, v) ∷ ds) m es h =
    let first = set-Refines k v m es h in
    let later = set_all-Refines ds first.0 (put k v es) first.2 in
    (later.0, rw first.1 later.1, later.2)

-- Any sequence of `set` on a new manager goes through, without an index that is out of range, and
-- leaves in the vector one element for each key, at the place where the key came first and with the
-- value that came last for it: what `put` makes of the entries.
pub set_all-new :
    (es : Entries)
    → (m : EnvVarManager) × (set_all es new ≡ some m) × (m.vars ≡ map (λ e. e.1) (put_all es []))
unfolding index_of BTreeMap.get
set_all-new es =
    let run = set_all-Refines es new [] (record { vars_same = refl; lookup_same = λ j. refl }) in
    (run.0, run.1, run.2.vars_same)
