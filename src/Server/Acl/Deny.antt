-- ===== src/Server/Acl/Deny.antt =====
-- What an entry of the scheme deny can give.
use remctl.Base.{ℕ, zero, suc, ◌≡◌, ◌≢◌, refl, sym, ap, ◌∙◌, ◌++◌, same, Bytes, codes}
use remctl.Server.Session.{Client}
use remctl.Server.Acl.{success, nomatch, error, deny, Answer, decided, spent, System}
use remctl.Server.Acl.Lines
use remctl.Server.Acl.Lines.{Scheme, break_at, find_scheme}
use remctl.Server.Acl.Check.{
  acl_check_deny, acl_check, check_entry, check_parts, check_found, scheme_check, expand,
}

never_success : (answer : Answer) → acl_check_deny answer ≢ decided success
unfolding acl_check_deny
never_success (decided success) h = cc h
never_success (decided nomatch) h = cc h
never_success (decided error) h = cc h
never_success (decided deny) h = cc h
never_success spent h = cc h

never_twice : (answer : Answer) → acl_check_deny (acl_check_deny answer) ≢ decided deny
unfolding acl_check_deny
never_twice (decided success) h = cc h
never_twice (decided nomatch) h = cc h
never_twice (decided error) h = cc h
never_twice (decided deny) h = cc h
never_twice spent h = cc h

module _ (system : System) (client : Client) where
  -- An entry `deny:...`, one round into the check.
  deny_entry :
      (fuel : ℕ) (value : Bytes) (default : Scheme) (file : Bytes)
      → acl_check system client (suc fuel) (codes "deny:" ++ value) default file
        ≡ acl_check_deny (acl_check system client fuel value Lines.princ file)
  unfolding acl_check check_entry expand check_parts check_found scheme_check same break_at
      find_scheme
  deny_entry fuel value default file = refl

  -- An entry of the scheme deny never gives success, and where its own entry has the scheme deny
  -- again, it never gives a denial.
  pub acl_check_deny_lem :
      (fuel : ℕ) (value : Bytes) (default : Scheme) (file : Bytes)
      → (acl_check system client fuel (codes "deny:" ++ value) default file ≢ decided success)
        × (acl_check system client fuel (codes "deny:deny:" ++ value) default file ≢ decided deny)
  unfolding acl_check
  acl_check_deny_lem zero value default file = (λ h. cc h, λ h. cc h)
  acl_check_deny_lem (suc zero) value default file = (
    λ h.
        never_success (acl_check system client zero value Lines.princ file)
          (sym (deny_entry zero value default file) ∙ h),
    λ h. cc (sym (deny_entry zero (codes "deny:" ++ value) default file) ∙ h),
  )
  acl_check_deny_lem (suc (suc fuel)) value default file = (
    λ h.
        never_success (acl_check system client (suc fuel) value Lines.princ file)
          (sym (deny_entry (suc fuel) value default file) ∙ h),
    λ h. never_twice (acl_check system client fuel value Lines.princ file) (
        ap acl_check_deny (sym (deny_entry fuel value Lines.princ file))
        ∙ sym (deny_entry (suc fuel) (codes "deny:" ++ value) default file)
        ∙ h),
  )
