-- ===== src/Errors.antt =====
-- The error values that the program tells apart by `errors.Is`, one constructor for each sentinel:
-- internal/domain/request.go, internal/auth/auth.go, internal/storage/storage.go,
-- internal/service/service.go, internal/diameter/manager.go, internal/slh/slh.go,
-- internal/slg/slg.go and the package `context`. Any other error value is `other`.
use vectorcore_gmlc.Base.{ℕ}

-- slh.Error.Kind
pub data SlhKind : Type 0 where
  invalid_target unknown_subscriber no_serving_node unauthorized malformed : SlhKind
  contradictory unsupported_node timeout cancelled base_failure experimental_failure : SlhKind

-- slg.Error.Kind
pub data SlgKind : Type 0 where
  invalid_request route_unavailable malformed_pla contradictory_pla positioning_denied : SlgKind
  positioning_failed ue_unreachable unknown_subscriber malformed_lrr : SlgKind
  base_failure experimental_failure : SlgKind

pub data Error : Type 0 where
  invalid_target unauthenticated forbidden not_found conflict : Error
  idempotency_required unsupported_service invalid_location_type : Error
  callback_requires_secret delivery_not_configured invalid_callback_url empty_batch : Error
  unavailable connection_lost shutting_down no_route : Error
  deadline_exceeded canceled other : Error
  -- *slh.Error and *slg.Error, with ResultCode and ExperimentalCode
  slh_error : SlhKind → ℕ → ℕ → Error
  slg_error : SlgKind → ℕ → ℕ → Error
