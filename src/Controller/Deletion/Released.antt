-- ===== src/Controller/Deletion/Released.antt =====
-- When the controller of accounts lets go of an account that is marked for deletion.
use nauth.Common.{String, false, ◌∷◌, ◌≡◌, ◌⊎◌}
use nauth.Domain.Errors
use nauth.Domain.Account.{AccountReference}
use nauth.Effects.{Call, KubeCall, done, History}
use nauth.Account.Keys.{Setting}
use nauth.Api.{Machinery}
use nauth.Api.Accounts.{Account}
use nauth.Controller.{finalizer_account}
use nauth.Controller.Deletion.Unbound.{IsUnbound, IsDeleted}

abbrev without_finalizer : Machinery → Account → Account
without_finalizer k state = record state {
  meta = record (state.meta) {
    finalizers = k.remove_finalizer state.meta.finalizers finalizer_account;
  };
}

-- The finalizer was gone already, or its removal is the last call, after the deletion.
abbrev pub IsLetGo : Setting → Machinery → Account → AccountReference → String → History → Type 0
IsLetGo w k state reference policy after =
    (k.contains_finalizer state.meta.finalizers finalizer_account ≡ false)
    ⊎ ((before : History) × IsDeleted w reference policy before
        × (after ≡ done (Call.kube (KubeCall.update_account (without_finalizer k state))) ∷ before))

-- What holds when `deleteAccount` returns without an error, with the history `after`.
pub record IsReleased (w : Setting) (k : Machinery) (reference : AccountReference) (policy : String)
    (after : History) : Type 0 where
  pub state : Account
  pub identified : AccountReference
  pub kept : (reference.account_id ≡ "") ⊎ (identified ≡ reference)
  pub unbound :
      (identified.account_id ≡ "") ⊎ IsUnbound w state.meta.namespace identified.account_id
  pub let_go : IsLetGo w k state identified policy after
