-- ===== src/Controller/Status/Steps.antt =====
-- The steps that the controllers share: the calls that they make, and what success tells of them.
use nauth.Common.{◌∷◌, Error, Result, ok, err, ◌≡◌, refl, ◌∙◌}
use nauth.Effects.{Call, KubeCall, Event, done, failed, History, Fallible, perform}
use nauth.Effects.Emits.{Emits, Emits-bind, Emits-then, Emits-perform, Emits-wrapping, Emits-raise}
use nauth.Effects.Fallible.{◌>>=◌, raise}
use nauth.Effects.Inversion.{then-eq-ok, wrapping-eq-ok, perform-eq-ok}
use nauth.Api.{Machinery}
use nauth.Controller.Status.{
  Requeue, Client, patch_labels, update_status, update_ready_status, update_ready_status_reconciled,
  report, report_or, reporting,
}

-- An error that has been reported is still an error.
raise-fails :
    {A B : Type 0} (m : Fallible A) (e : Error) (h : History) {b : B}
    → ((m >>= λ _. raise e) h).0 ≡ ok b
    → ⊥
unfolding raise
raise-fails m e h p = let (_, _, q, _) = then-eq-ok m (λ _. raise e) h p in cc

module _ {R : Type 0} (client : Client R) (k : Machinery) where
  pub report-fails :
      (r : R) (e : Error) (h : History) {b : Requeue} → (report client k r e h).0 ≡ ok b → ⊥
  unfolding report
  report-fails r e h p =
      let (_, _, q, _) =
        then-eq-ok (perform (Call.kube (KubeCall.record_error e)) (λ h. ok tt)) _ h p in
      raise-fails (update_status client _) e _ q

  report_or-eq-ok :
      {A : Type 0} (r : R) (f : A → Fallible Requeue) (x : Result A) (h : History) {b : Requeue}
      → (report_or client k r f x h).0 ≡ ok b
      → (a : A) × (x ≡ ok a) × ((f a h).0 ≡ ok b) × ((report_or client k r f x h).1 ≡ (f a h).1)
  unfolding report_or
  report_or-eq-ok r f (ok a) h p = (a, refl, p, refl)
  report_or-eq-ok r f (err e) h p = absurd (report-fails r e h p)

  -- A step that is reported if it fails, and what follows it.
  pub reporting-eq-ok :
      {A : Type 0} (r : R) (m : Fallible A) (f : A → Fallible Requeue) (h : History) {b : Requeue}
      → (reporting client k r m f h).0 ≡ ok b
      → (a : A) × ((m h).0 ≡ ok a)
        × ((f a (m h).1).0 ≡ ok b)
        × ((reporting client k r m f h).1 ≡ (f a (m h).1).1)
  unfolding reporting
  reporting-eq-ok r m f h p = report_or-eq-ok r f (m h).0 (m h).1 p

  pub patch_labels-eq-ok :
      (r : R) (h : History) {r' : R}
      → (patch_labels client r h).0 ≡ ok r'
      → (client.patch h r ≡ ok r')
        × ((patch_labels client r h).1 ≡ done (Call.kube (client.patch_call r)) ∷ h)
  unfolding patch_labels
  patch_labels-eq-ok r h p =
      let (q, same) = wrapping-eq-ok _ _ (perform _ (λ h. client.patch h r)) h p in
      let (answer, added) = perform-eq-ok _ (λ h. client.patch h r) h q in (answer, same ∙ added)

  pub update_status-eq-ok :
      (r : R) (h : History) {r' : R}
      → (update_status client r h).0 ≡ ok r'
      → (client.update_status h r ≡ ok r')
        × ((update_status client r h).1 ≡ done (Call.kube (client.update_status_call r)) ∷ h)
  unfolding update_status
  update_status-eq-ok r h p = perform-eq-ok _ (λ h. client.update_status h r) h p

-- A kind of event that calls of the Kubernetes client are.
module _ {P : Event → Type 0}
    (kube : (c : KubeCall) → P (done (Call.kube c)) × P (failed (Call.kube c))) {R : Type 0}
    (client : Client R) (k : Machinery) where
  pub Emits-kube :
      {A : Type 0} (c : KubeCall) (answer : History → Result A)
      → Emits P (perform (Call.kube c) answer)
  Emits-kube c answer = Emits-perform (Call.kube c) answer (kube c).0 (kube c).1

  pub Emits-patch_labels : (r : R) → Emits P (patch_labels client r)
  unfolding patch_labels
  Emits-patch_labels r = Emits-wrapping _ _ (Emits-kube _ _)

  pub Emits-update_status : (r : R) → Emits P (update_status client r)
  unfolding update_status
  Emits-update_status r = Emits-kube _ _

  pub Emits-reconciled : (r : R) → Emits P (update_ready_status_reconciled client k r)
  unfolding update_ready_status_reconciled update_ready_status
  Emits-reconciled r = Emits-wrapping _ _ (Emits-update_status _)

  pub Emits-report : (r : R) (e : Error) → Emits P (report client k r e)
  unfolding report
  Emits-report r e =
      Emits-then (Emits-kube _ _) λ _. Emits-then (Emits-update_status _) λ _. Emits-raise e

  report_or-Emits :
      {A : Type 0} (r : R) (f : A → Fallible Requeue) (x : Result A)
      → ((a : A) → Emits P (f a))
      → Emits P (report_or client k r f x)
  unfolding report_or
  report_or-Emits r f (ok a) ef = record { events = λ h. (ef a).events h }
  report_or-Emits r f (err e) ef = record { events = λ h. (Emits-report r e).events h }

  pub Emits-reporting :
      {A : Type 0} (r : R) (m : Fallible A) (f : A → Fallible Requeue)
      → Emits P m
      → ((a : A) → Emits P (f a))
      → Emits P (reporting client k r m f)
  unfolding reporting
  Emits-reporting r m f em ef = record {
    events = λ h. (Emits-bind em (λ x. report_or-Emits r f x ef)).events h;
  }
