-- ===== src/Operator/Extensions/Toggle/Requests.antt =====
-- Exactly the locations that differ from the spec are switched
-- (tembo-operator/src/extensions/toggle.rs).
use tembo.Prelude.{
  String, ◌≡◌, ◌∙◌, ap, sym, refl, ◌↔◌, Bool, true, false, not, some, List, [], ◌∷◌, ◌++◌, map,
  arith, any, retain, Option-cases, Bool-cases, inl, inr,
}
use tembo.Operator.Types.{
  Extension, ExtensionInstallLocation, ExtensionInstallLocationStatus, CoreDb,
}
use tembo.Operator.Extensions.Status.{get_location_status}
use tembo.Operator.Extensions.Toggle.{
  differs, needs_toggle, toggle_from, determine_extension_locations_to_toggle,
}

abbrev pub under : String → ExtensionInstallLocation → String × ExtensionInstallLocation
under name l = (name, l)

-- The locations, each with the name of its extension.
abbrev pub requests : List Extension → List (String × ExtensionInstallLocation)
requests [] = []
requests (e ∷ es) = map (under e.name) e.locations ++ requests es

-- A location whose status is known, has no error, and has the other state than the desired one.
abbrev pub IsPending : CoreDb → String × ExtensionInstallLocation → Type 0
IsPending cdb (name, l) =
    (s : ExtensionInstallLocationStatus) × (get_location_status cdb name l.database ≡ some s)
    × (s.error ≡ some false)
    × (s.enabled ≡ some (not l.enabled))

differs_iff :
    (l : ExtensionInstallLocation) (s : ExtensionInstallLocationStatus)
    → (differs l s ≡ true) ↔ ((s.error ≡ some false) × (s.enabled ≡ some (not l.enabled)))
unfolding differs
differs_iff l s = (λ h. (ground arith, ground arith), λ h. ground arith)

needs_toggle_iff :
    (cdb : CoreDb) (r : String × ExtensionInstallLocation)
    → (needs_toggle cdb r.0 r.1 ≡ true) ↔ IsPending cdb r
unfolding needs_toggle
needs_toggle_iff cdb (name, l) = (
  λ h. elim (Option-cases (get_location_status cdb name l.database)) [
    | inl e ↦ absurd (cc (rw (e, needs_toggle) at h))
    | inr (s, e) ↦ let (p, q) = (differs_iff l s).0 (rw (e, needs_toggle) at h) in (s, e, p, q)
  ],
  λ (s, e, p, q). rw (e, needs_toggle) ((differs_iff l s).1 (p, q)),
)

retain-append {ℓ} :
    {A : Type ℓ} (p : A → Bool) (xs ys : List A) → retain p (xs ++ ys) ≡ retain p xs ++ retain p ys
unfolding retain
retain-append p [] ys = refl
retain-append p (x ∷ xs) ys = ground (arith, retain-append p xs ys)

retain-map {ℓ κ} :
    {A : Type ℓ} {B : Type κ} (p : B → Bool) (f : A → B) (xs : List A)
    → retain p (map f xs) ≡ map f (retain (λ x. p (f x)) xs)
unfolding retain
retain-map p f [] = refl
retain-map p f (x ∷ xs) = ground (arith, retain-map p f xs)

retain_of_none {ℓ} : {A : Type ℓ} (p : A → Bool) (xs : List A) → any p xs ≡ false → retain p xs ≡ []
unfolding retain
retain_of_none p [] h = refl
retain_of_none p (x ∷ xs) h = ground (arith, retain_of_none p xs)

abbrev pub chosen : CoreDb → String × ExtensionInstallLocation → Bool
chosen cdb (name, l) = needs_toggle cdb name l

requests-toggle_from :
    (cdb : CoreDb) (es : List Extension)
    → requests (toggle_from cdb es) ≡ retain (chosen cdb) (requests es)
unfolding toggle_from
requests-toggle_from cdb [] = unfold retain in refl
requests-toggle_from cdb (e ∷ es) =
    let here = under e.name in
    let split =
      retain-append (chosen cdb) (map here e.locations) (requests es)
      ∙ ap (λ r. r ++ retain (chosen cdb) (requests es))
          (retain-map (chosen cdb) here e.locations) in
    elim (Bool-cases (any (needs_toggle cdb e.name) e.locations)) [
      | inl some_do ↦
          rw (some_do, toggle_from)
            (ap (λ r. map here (retain (needs_toggle cdb e.name) e.locations) ++ r)
                (requests-toggle_from cdb es)
              ∙ sym split)
      | inr none_does ↦
          rw (none_does, toggle_from)
            (requests-toggle_from cdb es
              ∙ sym (
                  split
                  ∙ ap (λ r. map here r ++ retain (chosen cdb) (requests es))
                      (retain_of_none (needs_toggle cdb e.name) e.locations none_does)))
    ]

-- The locations to switch are those of the spec that need it, in the order of the spec; and a
-- location needs it exactly when its status is known, has no error and has the other state than
-- the desired one.
pub determine_extension_locations_to_toggle-requests :
    (cdb : CoreDb)
    → (requests (determine_extension_locations_to_toggle cdb)
        ≡ retain (chosen cdb) (requests cdb.spec.extensions))
      × ((r : String × ExtensionInstallLocation) → (chosen cdb r ≡ true) ↔ IsPending cdb r)
unfolding determine_extension_locations_to_toggle
determine_extension_locations_to_toggle-requests cdb =
    (requests-toggle_from cdb cdb.spec.extensions, λ r. needs_toggle_iff cdb r)
