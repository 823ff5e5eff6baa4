-- ===== src/Cluster/Requests.antt =====
-- The client calls as computations, one for each way the program calls the API server.
use dploy.Prelude.{Option, none, some, List, []}
use dploy.Prelude.Text.{Text, codes}
use dploy.V1alpha1.Common.{Time, OwnerReference}
use dploy.V1alpha1.Template.{DployTemplate}
use dploy.V1alpha1.Instance.{DployInstance}
use dploy.V1alpha1.Claim.{DployInstanceClaim}
use dploy.V1alpha1.Operator.{operator_config_name, OperatorConfig}
use dploy.Effective.{Effective, fallbacks, resolve}
use dploy.Cluster.Calls.{not_found, other, ok, err, Key, key, Reader, Selector, Call, Kube}
use dploy.Cluster.Monad.{M, ◌>>=◌, pure, fail, attempt, ask}

module _ (kube : Kube) where
  abbrev pub read_clock : M Time
  read_clock = ask Call.clock (λ log. ok (kube.now log))

  abbrev pub get_claim : Key → M DployInstanceClaim
  get_claim k = ask (Call.get_claim k) (λ log. kube.get_claim log k)

  abbrev pub get_template : Key → M DployTemplate
  get_template k = ask (Call.get_template k) (λ log. kube.get_template log k)

  abbrev pub get_instance : Reader → Key → M DployInstance
  get_instance rd k = ask (Call.get_instance rd k) (λ log. kube.get_instance log rd k)

  abbrev pub list_instances : Reader → Text → Selector → M (List DployInstance)
  list_instances rd ns s =
      ask (Call.list_instances rd ns s) (λ log. kube.list_instances log rd ns s)

  abbrev pub list_claims : Text → Selector → M (List DployInstanceClaim)
  list_claims ns s = ask (Call.list_claims ns s) (λ log. kube.list_claims log ns s)

  abbrev pub write_claim : Call → M DployInstanceClaim
  write_claim c = ask c (λ log. kube.write_claim log c)

  abbrev pub write_instance : Call → M DployInstance
  write_instance c = ask c (λ log. kube.write_instance log c)

  abbrev pub write : Call → M (Unit {0})
  write c = ask c (λ log. kube.write log c)

  -- A delete that counts an object already gone as deleted.
  unfoldable pub delete_instance : DployInstance → M (Unit {0})
  delete_instance inst = do
    r ← attempt (write (Call.delete_instance inst none))
    elim r [ err not_found ↦ pure tt | err e ↦ fail e | ok u ↦ pure u ]

  unfoldable pub set_controller_reference :
      OwnerReference → List OwnerReference → M (List OwnerReference)
  set_controller_reference o refs log = (kube.set_controller_reference o refs, log)

  abbrev pub get_operator_config : Key → M OperatorConfig
  get_operator_config k = ask (Call.get_operator_config k) (λ log. kube.get_operator_config log k)

  -- operatorconfig.Resolve.
  decoded : Option Effective → M Effective
  decoded none = fail (other (codes "decode OperatorConfig.spec.values"))
  decoded (some eff) = pure eff

  unfoldable pub resolve_config : M Effective
  unfolding decoded
  resolve_config = do
    r ← attempt (get_operator_config (key [] operator_config_name))
    elim r [
      | err not_found ↦ pure fallbacks
      | err e ↦ fail e
      | ok cfg ↦ decoded (resolve kube.parse_duration kube.decodes (some cfg.spec))
    ]
