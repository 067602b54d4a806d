-- ===== src/Operator/Params/Order.antt =====
-- The order of a multi-valued parameter (tembo-operator/src/apis/postgres_parameters.rs).
use mathlib.Core.List.{Perm}
use tembo.Prelude.{
  ℕ, String, ◌≡◌, refl, Bool, true, false, Option, none, some, List, arith, str_le_trans,
  str_le_total,
}
use tembo.Prelude.Sort.{IsSorted, sort_by-IsSorted, sort_by-perm}
use tembo.Operator.Params.Value.{by_index, position, priority_le, sort_multivalue_configs}

by_index_trans :
    (i j k : Option ℕ) (p q r : Bool)
    → (p ≡ true → q ≡ true → r ≡ true)
    → by_index i j p ≡ true
    → by_index j k q ≡ true
    → by_index i k r ≡ true
by_index_trans none none none p q r t h k = t h k
by_index_trans none none (some k) p q r t h l = cc
by_index_trans none (some j) k p q r t h l = cc
by_index_trans (some i) none none p q r t h l = refl
by_index_trans (some i) none (some k) p q r t h l = cc
by_index_trans (some i) (some j) none p q r t h l = refl
by_index_trans (some i) (some j) (some k) p q r t h l = ground arith

priority_le_trans :
    (ps : List String) (a b c : String)
    → priority_le ps a b ≡ true
    → priority_le ps b c ≡ true
    → priority_le ps a c ≡ true
unfolding priority_le
priority_le_trans ps a b c h k =
    by_index_trans (position a ps) (position b ps) (position c ps) _ _ _ (str_le_trans a b c) h k

by_index_total :
    (i j : Option ℕ) (p q : Bool)
    → (p ≡ false → q ≡ true)
    → by_index i j p ≡ false
    → by_index j i q ≡ true
by_index_total none none p q t h = t h
by_index_total none (some j) p q t h = refl
by_index_total (some i) none p q t h = cc
by_index_total (some i) (some j) p q t h = ground arith

priority_le_total :
    (ps : List String) (a b : String) → priority_le ps a b ≡ false → priority_le ps b a ≡ true
unfolding priority_le
priority_le_total ps a b h = by_index_total (position a ps) (position b ps) _ _ (str_le_total a b) h

-- Whatever the priorities, `sort_multivalue_configs` keeps the values, each as often, and puts them
-- into the order of its comparator, each before all that come later.
pub sort_multivalue_configs_lem :
    (values priorities : List String)
    → Perm (sort_multivalue_configs values priorities) values
      × IsSorted (priority_le priorities) (sort_multivalue_configs values priorities)
unfolding sort_multivalue_configs
sort_multivalue_configs_lem values ps = (
  sort_by-perm (priority_le ps) values,
  sort_by-IsSorted (priority_le ps) (priority_le_trans ps) (priority_le_total ps) values,
)
