-- ===== src/Operator/AppService/Routes/Parted.antt =====
-- The routes of the two kinds together (tembo-operator/src/app_service/ingress.rs).
use tembo.Prelude.{
  ℕ, String, suc, ◌+◌, ◌≡◌, refl, Bool, ◌&&◌, Option, none, some, List, [], ◌∷◌, arith, any,
  if◌then◌else◌, length, is_some, is_none, is_none,
}
use tembo.Operator.Types.AppServices.{Routing}
use tembo.Operator.AppService.Routes.{http_routes, tcp_routes}

-- A routing that a route is made of, and one that has no type.
abbrev pub is_routed : Routing → Bool
is_routed route = is_some route.ingress_path

abbrev pub is_untyped : Routing → Bool
is_untyped route = is_some route.ingress_path && is_none route.ingress_type

unfoldable pub routed : List Routing → ℕ
routed [] = 0
routed (route ∷ routings) = elim route.ingress_path [
  | none ↦ routed routings
  | some _ ↦ suc (routed routings)
]

-- The numbers of the routes of two lists, where there are both.
unfoldable pub both_lengths {ℓ κ} :
    {A : Type ℓ} → {B : Type κ} → Option (List A) → Option (List B) → Option ℕ
both_lengths (some xs) (some ys) = some (length xs + length ys)
both_lengths _ _ = none

module _ (name namespace host host_tcp coredb_name : String) where
  -- The routes of http and those of tcp share the routings with a path out among them: each of these
  -- gives exactly one route, to one of the two. Where one of them has no type, there are no routes of
  -- either kind, not even those of the other routings.
  pub http_routes-tcp_routes :
      (routings : List Routing)
      → both_lengths
          (http_routes name namespace host coredb_name routings)
          (tcp_routes name namespace host_tcp coredb_name routings)
        ≡ (if any is_untyped routings then none else some (routed routings))
  unfolding http_routes tcp_routes both_lengths routed
  http_routes-tcp_routes [] = refl
  http_routes-tcp_routes (route ∷ routings) = ground (arith, http_routes-tcp_routes routings)
