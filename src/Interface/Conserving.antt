-- ===== src/Interface/Conserving.antt =====
-- The reconciliation of interfaces and the pool of functions: addresses over all requests.
use metalnet.Base.{◌≡◌, refl, sym, ◌∙◌, subst, false, some, String, string_eq}
use metalnet.Base.Exec.{Exec}
use metalnet.Api.{ObjectKey, PciAddress}
use metalnet.Effects.{Env, Call, World, call, note, on_functions}
use metalnet.Effects.Invariants.{Frame, Moves}
use metalnet.NetFns.{Manager, Ghw, get, get_or_claim, release, on_store, get_claim}
use metalnet.NetFns.Conservation.{
  IsSound, Conserved, get_claim-Found, get_or_claim-Outcome, same_files, All-later,
}
use metalnet.NetFns.Releasing.{release-Conserved}
use metalnet.Interface.Spec.{NetworkInterfaceReconciler}
use metalnet.Interface.Control.{reconcile_request}
use metalnet.Interface.ControlFrames.{reconcile_request-Moves}

-- A sound pool stays sound, and every address is held as often as before.
abbrev pub conserves : Ghw → Frame
conserves ghw = record {
  rel = λ v w. IsSound ghw v.functions → Conserved ghw v.functions w.functions;
  same = λ w s. (s, λ a. refl);
  next = λ u v w p q s. let (k, e) = p s in let (l, f) = q k in (l, λ a. f a ∙ e a);
}

pool-Moves :
    {A : Type 0} (ghw : Ghw) (m : Exec Manager A)
    → ((f : Manager) → IsSound ghw f → Conserved ghw f (m f).1)
    → Moves (conserves ghw) (on_functions m)
unfolding on_functions
pool-Moves ghw m h = record { from = λ w s. h w.functions s }

call-conserves : (env : Env) (ghw : Ghw) (c : Call) → Moves (conserves ghw) (call env c)
unfolding call
call-conserves env ghw c = record { from = λ w s. (s, λ a. refl) }

note-conserves : (ghw : Ghw) (c : Call) → Moves (conserves ghw) (note c)
unfolding note
note-conserves ghw c = record { from = λ w s. (s, λ a. refl) }

get-Conserved :
    (ghw : Ghw) (uid : String) (f : Manager)
    → IsSound ghw f
    → Conserved ghw f (get ghw false uid f).1
unfolding get on_store
get-Conserved ghw uid f s =
    let (c, _) = get_claim-Found ghw uid f.store in
    same_files ghw f (get_claim ghw false uid f.store).1 s (rw c refl)
      (rw c (All-later ghw f.store.faults s.clean))

module _ (env : Env) (r : NetworkInterfaceReconciler) where
  -- With a store of PCI functions whose writes, when they fail, leave no file, and addresses that
  -- can be read back from their text once they were read from one: whatever interface a request
  -- names, whatever dp-service, metalbond and the API answer, and whether Reconcile returns nil,
  -- an error or panics, a pool that was sound before is sound after it, and every address is held
  -- as often, in the pool and by claims together.
  pub reconcile_request-Conserved :
      r.is_tap_store ≡ false
      → ((t : String) (a : PciAddress)
          → r.ghw.from_string t ≡ some a
          → r.ghw.from_string (r.ghw.to_string a) ≡ some a)
      → (key : ObjectKey) (w : World) → IsSound r.ghw w.functions
      → Conserved r.ghw w.functions (reconcile_request env r key w).1.functions
  reconcile_request-Conserved pci reads_back key w s =
      (reconcile_request-Moves env r (conserves r.ghw) (call-conserves env r.ghw)
          (note-conserves r.ghw)
          (λ uid.
            subst (λ t. Moves (conserves r.ghw) (on_functions (get_or_claim r.ghw t uid))) (sym pci)
              (pool-Moves r.ghw _ (λ f s. (get_or_claim-Outcome r.ghw uid f s).0)))
          (λ uid.
            subst (λ t. Moves (conserves r.ghw) (on_functions (get r.ghw t uid))) (sym pci)
              (pool-Moves r.ghw _ (get-Conserved r.ghw uid)))
          (λ uid.
            subst (λ t. Moves (conserves r.ghw) (on_functions (release r.ghw t uid))) (sym pci)
              (pool-Moves r.ghw _ (λ f s. (release-Conserved r.ghw reads_back uid f s).0)))
          key).from
        w s
