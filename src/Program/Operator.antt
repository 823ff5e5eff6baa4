-- ===== src/Program/Operator.antt =====
-- cmd/operator/main.go, and SetupWithManager of the four controllers.
use dploy.Prelude.{Bool, true, false, List, [], ◌∷◌, if◌then◌else◌}
use dploy.Prelude.Int.{ℤ, pos, leb_ℤ}
use dploy.Prelude.Text.{Text, codes}

-- The kinds of objects that controllers work on or watch.
pub data Kind : Type 0 where
  operator_config dploy_template dploy_instance dploy_instance_claim helm_release : Kind

-- A registration: the controller's name, its kind, what it owns, what it watches and maps to its own
-- kind, and its workers, of which a manager gives one where none are named.
pub record Controller : Type 0 where
  pub name : Text
  pub kind : Kind
  pub owns : List Kind
  pub watches : List Kind
  pub workers : ℤ

abbrev pub claim_max_concurrent_reconciles : ℤ
claim_max_concurrent_reconciles = pos 4

abbrev pub instance_max_concurrent_reconciles : ℤ
instance_max_concurrent_reconciles = pos 4

unfoldable pub operator_config_controller : Controller
operator_config_controller = record {
  name = codes "operatorconfig";
  kind = operator_config;
  owns = [];
  watches = [];
  workers = pos 1;
}

unfoldable pub template_controller : Controller
template_controller = record {
  name = codes "dploytemplate";
  kind = dploy_template;
  owns = [];
  watches = dploy_instance ∷ [];
  workers = pos 1;
}

unfoldable pub instance_controller : ℤ → Controller
instance_controller max_concurrent_reconciles = record {
  name = codes "dployinstance";
  kind = dploy_instance;
  owns = helm_release ∷ [];
  watches = [];
  workers =
      if leb_ℤ max_concurrent_reconciles (pos 0)
      then instance_max_concurrent_reconciles
      else max_concurrent_reconciles;
}

unfoldable pub claim_controller : Controller
claim_controller = record {
  name = codes "dployinstanceclaim";
  kind = dploy_instance_claim;
  owns = [];
  watches = dploy_instance ∷ [];
  workers = claim_max_concurrent_reconciles;
}

-- What the operator does in turn, each of which may fail.
pub data Setup : Type 0 where
  new_manager : Setup
  register : Controller → Setup
  healthz_check readyz_check run_manager : Setup

unfoldable pub setups : ℤ → List Setup
setups instance_concurrency =
    new_manager
    ∷ register operator_config_controller
    ∷ register template_controller
    ∷ register (instance_controller instance_concurrency)
    ∷ register claim_controller
    ∷ healthz_check
    ∷ readyz_check
    ∷ run_manager
    ∷ []

-- What was done, and whether the process exits with 1.
pub record Run : Type 0 where
  pub did : List Setup
  pub exits_1 : Bool

unfoldable pub run_setups : (Setup → Bool) → List Setup → Run
run_setups fails [] = record { did = []; exits_1 = false }
run_setups fails (s ∷ ss) =
    let rest = run_setups fails ss in
    if fails s
    then record { did = s ∷ []; exits_1 = true }
    else record { did = s ∷ rest.did; exits_1 = rest.exits_1 }

-- main, by the flag instance-concurrency and what fails.
unfoldable pub operator : ℤ → (Setup → Bool) → Run
operator instance_concurrency fails = run_setups fails (setups instance_concurrency)
