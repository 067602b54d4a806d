-- ===== src/Conductor/Recorded.antt =====
-- When a round records a deletion (conductor/src/main.rs).
use tembo.Prelude.{◌≡◌, ◌⊎◌, false}
use tembo.Prelude.Result.{ok}
use tembo.Conductor.Types.{Config, Message}
use tembo.Conductor.Round.{World}
use tembo.Conductor.Lacks.{Lacks}

module _ (world : World) (config : Config) (read_msg : Message) where
  abbrev pub IsDeleted : Type 0
  IsDeleted =
      (world.delete_coredb read_msg.message.namespace ≡ ok tt)
      × (world.delete_namespace read_msg.message.namespace ≡ ok tt)
      × ((config.is_cloud_formation ≡ false)
          ⊎ (world.delete_cloudformation read_msg.message.namespace ≡ ok tt))
      × ((config.is_gcp ≡ false) ⊎ (world.delete_gcp_binding read_msg.message.namespace ≡ ok tt))
      × ((config.is_azure ≡ false)
          ⊎ (world.delete_azure_binding read_msg.message.namespace ≡ ok tt))
