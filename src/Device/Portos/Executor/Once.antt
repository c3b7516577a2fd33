-- ===== src/Device/Portos/Executor/Once.antt =====
-- A registration is reported as failed only where it changed nothing (device_jobs/portos/mod.rs and
-- outcome.rs of crates/devbridge-client/src).
use devbridge.Common.{
  ℕ, ◌≡◌, ◌⊎◌, refl, sym, ◌∙◌, String, Bool, true, false, not, ◌&&◌, ◌||◌, Option, none, some,
  arith, Bool-cases, Option-cases, inl, inr, ◌==◌, nat_eq, is_some,
}
use mathlib.Core.Bool.{false≢true}
use devbridge.Common.Int.{ℤ, negsuc, int_eq, int_beq_iff}
use devbridge.Common.Json
use devbridge.Common.Json.{Json}
use devbridge.Device.Entry.{Outcome}
use devbridge.Device.Journal.Store.{Journal}
use devbridge.Device.Portos.Operation.{ReceiptKind, path}
use devbridge.Device.Portos.Reply.{
  Reply, unreachable, lost, answer, Texts, is_validation, is_missing_endpoint, is_success, is_code,
  Lookup, found, not_found, problem_code, int_of,
}
use devbridge.Device.Portos.Register.{register_outcome, done_or, register_answer}
use devbridge.Device.Portos.Executor
use devbridge.Device.Portos.Executor.{Portos, Receipt, register_body}
use devbridge.Device.Portos.Executor.Documented.{
  code_of, IsRefusal, no_connection, invalid, unauthenticated, no_endpoint,
}

unfoldable pub is_failed : Outcome → Bool
is_failed (Outcome.failed code text) = true
is_failed _ = false

-- What Portos documents: a request that it refuses registers nothing.
pub record RefusesCleanly {S : Type 0} (portos : Portos S) (registered : S → String → ℕ)
    : Type 0 where
  pub refuses :
      (p : S) (target external_id key : String) (payload : Json)
      → IsRefusal (portos.post p target (register_body payload external_id)).0
      → registered (portos.post p target (register_body payload external_id)).1 key
        ≡ registered p key

pub problem_code_lem : (body : Json) → problem_code body ≡ code_of body
unfolding problem_code int_of
problem_code_lem body = elim (Option-cases (Json.member "code" body)) [
  | inl e ↦ rw e refl
  | inr (v, e) ↦ rw e refl
]

validation-IsRefusal :
    (status : ℕ) (body : Json) → is_validation status body ≡ true → IsRefusal (answer status body)
unfolding is_validation
validation-IsRefusal status body h =
    invalid status body (ground (arith, h))
      (rw (sym (problem_code_lem body)) (code (problem_code body) h))
  where
    code :
        (c : Option ℤ)
        → ((status == 400 || status == 422) && (not (is_some c) || is_code (negsuc 899) c)) ≡ true
        → (c ≡ none) ⊎ (c ≡ some (negsuc 899))
    code none h = inl refl
    code (some c) h = ground (arith, h, int_beq_iff c (negsuc 899))

missing-IsRefusal :
    (status : ℕ) (body : Json)
    → is_missing_endpoint status body ≡ true
    → IsRefusal (answer status body)
unfolding is_missing_endpoint
missing-IsRefusal status body h =
    no_endpoint status body (ground (arith, h)) (sym (problem_code_lem body) ∙ ground (arith, h))

is_failed-done_or :
    (t : Texts) (why : String) (o : Option Json) → is_failed (done_or t why o) ≡ false
unfolding is_failed done_or
is_failed-done_or t why none = refl
is_failed-done_or t why (some r) = refl

failed-register_answer :
    (t : Texts) (status : ℕ) (body : Json) (kind : ReceiptKind) (external_id : String)
    → is_failed (register_answer t status body kind external_id) ≡ true
    → IsRefusal (answer status body)
unfolding register_answer is_failed
failed-register_answer t status body kind external_id h = elim (Bool-cases (is_success status)) [
  | inl e ↦ absurd (false≢true (sym (is_failed-done_or t _ _) ∙ (rw e at h)))
  | inr e ↦ elim (Bool-cases (is_validation status body)) [
    | inl v ↦ validation-IsRefusal status body v
    | inr v ↦ elim (Bool-cases (status == 401)) [
      | inl a ↦ unauthenticated status body (ground (arith, a))
      | inr a ↦ elim (Bool-cases (is_missing_endpoint status body)) [
        | inl m ↦ missing-IsRefusal status body m
        | inr m ↦ absurd (false≢true (ground (arith, e, v, a, m, h)))
      ]
    ]
  ]
]

failed-register_outcome :
    (t : Texts) (reply : Reply) (kind : ReceiptKind) (external_id : String)
    → is_failed (register_outcome t reply kind external_id) ≡ true
    → IsRefusal reply
unfolding register_outcome is_failed
failed-register_outcome t (unreachable e) kind external_id h = no_connection e
failed-register_outcome t (lost e) kind external_id h = cc
failed-register_outcome t (answer status body) kind external_id h =
    failed-register_answer t status body kind external_id h

module _ {S : Type 0} (t : Texts) (portos : Portos S) (registered : S → String → ℕ)
    (documented : RefusesCleanly portos registered) (now : ℕ) where
  failed-looked_up :
      (r : Receipt) (key : String) (l : Lookup) (p : S) (s : Journal)
      → is_failed (Executor.looked_up t portos now r l p s).outcome ≡ true
      → registered (Executor.looked_up t portos now r l p s).portos key ≡ registered p key
  unfolding Executor.looked_up Executor.post_receipt
  failed-looked_up r key (found v) p s h = refl
  failed-looked_up r key not_found p s h =
      documented.refuses p (path r.kind) r.external_id key r.payload
        (failed-register_outcome t _ r.kind r.external_id h)
  failed-looked_up r key (Lookup.unreachable e) p s h = refl
  failed-looked_up r key (Lookup.failed e) p s h = refl

  -- A registration that is reported as failed changed nothing in Portos: no receipt of any key was
  -- registered, if Portos registers nothing where it answers by the documented refusals.
  pub failed_registers_nothing :
      (r : Receipt) (key : String) (p : S) (s : Journal)
      → is_failed (Executor.register t portos now r p s).outcome ≡ true
      → registered (Executor.register t portos now r p s).portos key ≡ registered p key
  unfolding Executor.register
  failed_registers_nothing r key p s h = failed-looked_up r key _ p s h
