-- ===== src/Config/Validation.antt =====
-- internal/config/config.go: what a configuration that `Validate` accepts is like.
use compute_agent.Base.{
  ℕ, ==_iff, List, [], ◌∷◌, ◌≡◌, ◌↔◌, ◌⊎◌, inl, inr, refl, String, Bool, true, false, not, ◌&&◌,
  ◌||◌, Option, none, some, is_blank, codes, lower_codes, arith, if◌then◌else◌, Bool-cases,
}
use compute_agent.Base.Int.{ℤ, pos, ◌≤ℤ◌}
use compute_agent.Errors.{Err}
use compute_agent.Workload.Status.{same_codes}
use compute_agent.Config.{
  Config, is_bad_port, check_vault_auth, first_error, fails_if, check_vault, validate,
}

abbrev pub IsPort : ℤ → Type 0
IsPort p = (pos 1 ≤ℤ p) × (p ≤ℤ pos 65535)

abbrev pub IsGiven : String → Type 0
IsGiven s = is_blank s ≡ false

abbrev pub is_method : String → Config → Bool
is_method name c = same_codes (lower_codes c.vault_auth_method) (codes name)

-- A method of authentication with its credentials.
abbrev pub HasCredentials : Config → Type 0
HasCredentials c =
    ((is_method "token" c ≡ true) × IsGiven c.vault_token)
    ⊎ ((is_method "approle" c ≡ true) × IsGiven c.vault_app_role_id × IsGiven c.vault_app_secret_id)

abbrev pub HasVault : Config → Type 0
HasVault c =
    (c.tls_enabled ≡ true)
    × IsGiven c.vault_addr
    × HasCredentials c
    × (pos 1 ≤ℤ c.vault_cert_ttl)
    × (pos 1 ≤ℤ c.vault_retry_interval)

abbrev pub IsValid : Config → Type 0
IsValid c =
    IsPort c.grpc_port
    × IsPort c.metrics_port
    × ((c.tls_enabled ≡ false)
        ⊎ (IsGiven c.tls_cert_path × IsGiven c.tls_key_path × IsGiven c.tls_ca_path))
    × ((c.vault_enabled ≡ false) ⊎ HasVault c)
    × ((c.docker_enabled ≡ true) ⊎ ((c.compose_enabled ≡ true) ⊎ (c.vm_enabled ≡ true)))
    × IsGiven c.scheduler_addr

module _ {A B : Type 0} where
  both :
      (e f : Option Err) → ((e ≡ none) ↔ A) → ((f ≡ none) ↔ B) → (first_error e f ≡ none) ↔ (A × B)
  both none f p q = (λ h. (p.0 refl, q.0 h), λ g. q.1 g.1)
  both (some e) f p q = ((λ h. cc), λ g. p.1 g.0)

when-none :
    {V : Type 0} (b : Bool) (e : Option Err)
    → ((e ≡ none) ↔ V)
    → ((if b then e else none) ≡ none) ↔ ((b ≡ false) ⊎ V)
when-none true e p = ((λ h. inr (p.0 h)), λ g. elim g [ inl x ↦ cc | inr v ↦ p.1 v ])
when-none false e p = ((λ h. inl refl), λ g. refl)

fails_if-IsGiven : (s message : String) → (fails_if (is_blank s) message ≡ none) ↔ IsGiven s
fails_if-IsGiven s message = ground arith

fails_if-IsPort : (p : ℤ) (message : String) → (fails_if (is_bad_port p) message ≡ none) ↔ IsPort p
fails_if-IsPort p message = ground arith

same_codes-eq : (xs ys : List ℕ) → same_codes xs ys ≡ true → xs ≡ ys
unfolding same_codes
same_codes-eq [] [] h = refl
same_codes-eq [] (y ∷ ys) h = cc
same_codes-eq (x ∷ xs) [] h = cc
same_codes-eq (x ∷ xs) (y ∷ ys) h = ground (arith, same_codes-eq xs ys, ==_iff x y)

approle-not_token : (c : Config) → is_method "approle" c ≡ true → is_method "token" c ≡ false
unfolding same_codes
approle-not_token c h =
    rw (same_codes-eq (lower_codes c.vault_auth_method) (codes "approle") h) refl

module _ (quote : String → String) (c : Config) where
  check_vault_auth-none : (check_vault_auth quote c ≡ none) ↔ HasCredentials c
  unfolding check_vault_auth
  check_vault_auth-none = elim (Bool-cases (is_method "token" c)) [
    | inl token ↦ rw token (
      λ h. inl (refl, ground arith),
      λ g. elim g [
        | inl (t, given) ↦ rw given refl
        | inr (a, i, j) ↦ ground (arith, approle-not_token c a)
      ],
    )
    | inr other ↦ elim (Bool-cases (is_method "approle" c)) [
      | inl approle ↦
          rw (other, approle) ((λ h. inr (refl, ground arith, ground arith)), λ g. ground arith)
      | inr neither ↦ rw (other, neither) ((λ h. cc), λ g. ground arith)
    ]
  ]

  check_vault-none : (check_vault quote c ≡ none) ↔ HasVault c
  unfolding check_vault
  check_vault-none = ground (arith, check_vault_auth-none)

  abbrev IsTls : Type 0
  IsTls =
      (c.tls_enabled ≡ false)
      ⊎ (IsGiven c.tls_cert_path × IsGiven c.tls_key_path × IsGiven c.tls_ca_path)

  abbrev HasRuntime : Type 0
  HasRuntime = (c.docker_enabled ≡ true) ⊎ ((c.compose_enabled ≡ true) ⊎ (c.vm_enabled ≡ true))

  tls-none :
      (message : String)
      → (fails_if
            (c.tls_enabled
              && (is_blank c.tls_cert_path || is_blank c.tls_key_path || is_blank c.tls_ca_path))
            message
          ≡ none)
        ↔ IsTls
  tls-none message = ground arith

  runtime-none :
      (message : String)
      → (fails_if (not c.docker_enabled && not c.compose_enabled && not c.vm_enabled) message
          ≡ none)
        ↔ HasRuntime
  runtime-none message = ground arith

  -- A configuration is accepted exactly if both ports lie in 1 to 65535; with TLS, all three paths
  -- are given; with Vault, there is TLS, its address, a known method of authentication with its
  -- credentials, and both periods are positive; some runtime is enabled; and the scheduler has an
  -- address.
  pub validate-IsValid : (validate quote c ≡ none) ↔ IsValid c
  unfolding validate
  validate-IsValid =
      let parts = both _ _ (fails_if-IsPort c.grpc_port _) (
        both _ _ (fails_if-IsPort c.metrics_port _) (
          both _ _ (tls-none _) (
            both _ _ (when-none c.vault_enabled (check_vault quote c) check_vault-none)
              (both _ _ (runtime-none _) (fails_if-IsGiven c.scheduler_addr _))))) in
      (
        (λ h. let p = parts.0 h in (p.0, p.1.0, p.1.1.0, p.1.1.1.0, p.1.1.1.1.0, p.1.1.1.1.1)),
        λ g. parts.1 (g.0, (g.1, (g.2, (g.3, (g.4, g.5))))),
      )
