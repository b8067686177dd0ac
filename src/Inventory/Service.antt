-- ===== src/Inventory/Service.antt =====
-- internal/service/hypervisor_service.go: registering and changing a hypervisor, testing its
-- connection, and the update of its provider's health after a synchronisation. The cipher, the
-- registry of providers and the repository's answers are parameters. The audit log is kept as the
-- hypervisors of its entries.
use vm_orbit.Base.{
  ℕ, suc, String, ◌≡◌, refl, sym, ap, ◌∙◌, ◌⊎◌, inl, inr, Bool, not, ◌&&◌, Option, none, some, List,
  [], ◌∷◌, ◌++◌, arith, if◌then◌else◌, Bool-cases, Option-cases, inr_inj, or_else, ◌==◌, nat_eq,
  string_eq, beq_refl,
}
use vm_orbit.Base.Map.{Map, lookup, insert, lookup-insert}
use vm_orbit.Inventory.{
  Hypervisor, connected, failed, unknown, ProviderType, JsonMap, build_hypervisor_credentials,
  token_of, stored_secret,
}
use vm_orbit.Inventory.Database.{Database}
use vm_orbit.Inventory.Sync.{
  Providers, World, write_connection, hang_up, connect_error, SyncError, hypervisor_not_found,
  not_registered,
}

pub record RegisterRequest : Type 0 where
  pub name : String
  pub description : String
  pub provider : ProviderType
  pub host : String
  pub port : ℕ
  pub username : String
  pub password : String
  pub token : String
  pub tls_verify : Bool
  pub tags : List String
  pub metadata : Option JsonMap

-- `none` for a nil pointer, slice or map: the field keeps its value.
pub record UpdateRequest : Type 0 where
  pub name : Option String
  pub description : Option String
  pub host : Option String
  pub port : Option ℕ
  pub username : Option String
  pub password : Option String
  pub token : Option String
  pub tls_verify : Option Bool
  pub tags : Option (List String)
  pub metadata : Option JsonMap

pub data ServiceError : Type 0 where
  unsupported_provider encryption_failed write_failed absent : ServiceError

-- The secret that is encrypted: the token only when it comes without a password.
unfoldable pub register_secret : RegisterRequest → String
register_secret req =
    if not (req.token == "") && (req.password == "") then req.token else req.password

unfoldable pub registered_hypervisor : ℕ → RegisterRequest → String → Hypervisor
registered_hypervisor id req encrypted = record {
  id = id;
  name = req.name;
  description = req.description;
  provider = req.provider;
  host = req.host;
  port = req.port;
  username = req.username;
  encrypted_secret = encrypted;
  tls_verify = req.tls_verify;
  connection_status = unknown;
  tags = req.tags;
  metadata = req.metadata;
}

-- What the repository holds, and the hypervisors of the audit entries.
pub record Stored : Type 0 where
  pub hypervisors : Map ℕ Hypervisor
  pub audit : List ℕ

-- A secret to set: the password, else the token; the empty text for none.
unfoldable pub update_secret : UpdateRequest → String
update_secret req =
    let password = or_else req.password "" in
    let token = or_else req.token "" in
    if not (token == "") && (password == "") then token else password

-- m[k] = v for every entry of the request.
unfoldable pub merge_metadata : Option JsonMap → Option JsonMap → Option JsonMap
merge_metadata m none = m
merge_metadata m (some []) = some (or_else m [])
merge_metadata m (some ((k, v) ∷ entries)) =
    merge_metadata (some (insert k v (or_else m []))) (some entries)

unfoldable pub updated_hypervisor : UpdateRequest → String → Hypervisor → Hypervisor
updated_hypervisor req encrypted h = record {
  id = h.id;
  name = or_else req.name h.name;
  description = or_else req.description h.description;
  provider = h.provider;
  host = or_else req.host h.host;
  port = or_else req.port h.port;
  username = or_else req.username h.username;
  encrypted_secret = encrypted;
  tls_verify = or_else req.tls_verify h.tls_verify;
  connection_status = h.connection_status;
  tags = or_else req.tags h.tags;
  metadata = merge_metadata h.metadata req.metadata;
}

-- `writes` is whether the repository's write succeeds, `is_registered` the registry.
module _ (is_registered : ProviderType → Bool) (encrypt_secret : String → Option String)
    (writes : Hypervisor → Bool) where
  abbrev pub Answer : Type 0
  Answer = Stored × (ServiceError ⊎ Hypervisor)

  unfoldable pub store_hypervisor : Hypervisor → Stored → Answer
  store_hypervisor h s =
      if writes h
      then (
        record { hypervisors = insert h.id h s.hypervisors; audit = s.audit ++ (h.id ∷ []) },
        inr h,
      )
      else (s, inl write_failed)

  unfoldable pub create_encrypted : ℕ → RegisterRequest → Option String → Stored → Answer
  create_encrypted id req none s = (s, inl encryption_failed)
  create_encrypted id req (some e) s = store_hypervisor (registered_hypervisor id req e) s

  -- `id` is the identifier that the row gets.
  unfoldable pub register : ℕ → RegisterRequest → Stored → Answer
  register id req s =
      if is_registered req.provider
      then create_encrypted id req (encrypt_secret (register_secret req)) s
      else (s, inl unsupported_provider)

  -- The encrypted secret after the request, when the encryption succeeds.
  unfoldable pub secret_after : UpdateRequest → Hypervisor → Option String
  secret_after req h =
      if update_secret req == ""
      then some h.encrypted_secret
      else encrypt_secret (update_secret req)

  unfoldable pub update_encrypted : UpdateRequest → Hypervisor → Option String → Stored → Answer
  update_encrypted req h none s = (s, inl encryption_failed)
  update_encrypted req h (some e) s = store_hypervisor (updated_hypervisor req e h) s

  unfoldable pub update_found : UpdateRequest → Option Hypervisor → Stored → Answer
  update_found req none s = (s, inl absent)
  update_found req (some h) s = update_encrypted req h (secret_after req h) s

  unfoldable pub update : ℕ → UpdateRequest → Stored → Answer
  update id req s = update_found req (lookup id s.hypervisors) s

  store_hypervisor-stores :
      (h : Hypervisor) (s : Stored) (k : Hypervisor)
      → (store_hypervisor h s).1 ≡ inr k
      → (k ≡ h) × (lookup h.id (store_hypervisor h s).0.hypervisors ≡ some k)
  unfolding store_hypervisor
  store_hypervisor-stores h s k done = elim (Bool-cases (writes h)) [
    | inr b ↦ absurd (ground (arith, rw b at done))
    | inl b ↦
        let same = inr_inj (rw b at done) in
        (sym same, rw (b, lookup-insert, beq_refl) (ap some same))
  ]

module _ (D : Database) (P : Providers) (id : ℕ)
    (decrypt_secret text_value : String → Option String) (contains : String → String → Bool) where
  unfoldable pub tested :
      ProviderType → World D P → P.Session × Option String → World D P × Option SyncError
  tested p w (session, some e) = (
    record w { store = write_connection D id failed w.store; session = session },
    some (connect_error contains e),
  )
  tested p w (session, none) = (
    hang_up D P p (record w { store = write_connection D id connected w.store; session = session }),
    none,
  )

  unfoldable pub test_loaded : World D P → String ⊎ Hypervisor → World D P × Option SyncError
  test_loaded w (inl e) = (w, some (hypervisor_not_found e))
  test_loaded w (inr h) =
      if P.is_registered h.provider
      then tested h.provider w (
          P.connect h.provider (build_hypervisor_credentials decrypt_secret text_value h) w.session)
      else (w, some not_registered)

  unfoldable pub test_connection : World D P → World D P × Option SyncError
  test_connection w = test_loaded w (D.hypervisor id w.store)

-- The fields of a provider's health snapshot that the update touches; `last_sync_failed` is its
-- LastSyncStatus.
pub record ProviderHealth : Type 0 where
  pub last_sync_at : Option ℕ
  pub last_sync_failed : Bool
  pub vm_count : ℕ
  pub sync_failures_24h : ℕ

-- With no repository or no snapshot yet there is nothing to update.
unfoldable pub update_health_after_sync :
    ℕ → ℕ → Bool → ℕ → Map ℕ ProviderHealth → Map ℕ ProviderHealth
update_health_after_sync now hypervisor_id sync_failed vm_count m = elim (lookup hypervisor_id m) [
  | none ↦ m
  | some old ↦
      insert hypervisor_id
        (record {
          last_sync_at = some now;
          last_sync_failed = sync_failed;
          vm_count = vm_count;
          sync_failures_24h =
              if sync_failed then suc old.sync_failures_24h else old.sync_failures_24h;
        })
        m
]

register_secret_lem :
    (req : RegisterRequest)
    → register_secret req ≡ (if req.password == "" then req.token else req.password)
unfolding register_secret
register_secret_lem req = elim (Bool-cases (req.password == "")) [
  | inr given ↦ ground (arith, given)
  | inl empty ↦ elim (Bool-cases (req.token == "")) [
    | inr token ↦ ground (arith, empty, token)
    | inl both ↦
        rw (empty, both)
          ((string_eq.same_iff req.password "").0 empty
            ∙ sym ((string_eq.same_iff req.token "").0 both))
  ]
]

-- What the cipher of pkg/crypto promises: what it encrypted decrypts to the same text.
abbrev pub IsCipher : (String → Option String) → (String → Option String) → Type 0
IsCipher encrypt decrypt =
    (plain encoded : String) → encrypt plain ≡ some encoded → decrypt encoded ≡ some plain

module _ (is_registered : ProviderType → Bool)
    (encrypt_secret decrypt_secret text_value : String → Option String) (writes : Hypervisor → Bool)
    (cipher : IsCipher encrypt_secret decrypt_secret) where
  -- Where registering succeeds, the hypervisor is stored under its identifier, and the credentials
  -- built from it are the request's: its host, port and user, and as password the request's
  -- password, or the request's token when the password is empty.
  pub credentials-register :
      (id : ℕ) (req : RegisterRequest) (s : Stored) (h : Hypervisor)
      → (register is_registered encrypt_secret writes id req s).1 ≡ inr h
      → (lookup id (register is_registered encrypt_secret writes id req s).0.hypervisors ≡ some h)
        × (build_hypervisor_credentials decrypt_secret text_value h ≡ record {
          host = req.host;
          port = req.port;
          username = req.username;
          password = if req.password == "" then req.token else req.password;
          token = token_of decrypt_secret text_value req.provider req.metadata;
          tls_verify = req.tls_verify;
        })
  unfolding register create_encrypted stored_secret build_hypervisor_credentials
      registered_hypervisor
  credentials-register id req s h done = elim (Bool-cases (is_registered req.provider)) [
    | inr b ↦ absurd (ground (arith, rw b at done))
    | inl b ↦ elim (Option-cases (encrypt_secret (register_secret req))) [
      | inl e ↦ absurd (ground (arith, rw (b, e) at done))
      | inr (encoded, e) ↦
          let stored =
            store_hypervisor-stores is_registered encrypt_secret writes
              (registered_hypervisor id req encoded) s h (rw (b, e) at done) in
          (
            rw (b, e) stored.1,
            rw (stored.0, cipher (register_secret req) encoded e, register_secret_lem req) refl,
          )
    ]
  ]

  -- Where a change succeeds, the stored password is the new secret, or the old one when the request
  -- has none, also for a hypervisor whose secret never was encrypted.
  credentials-update :
      (id : ℕ) (req : UpdateRequest) (s : Stored) (old h : Hypervisor)
      → lookup id s.hypervisors ≡ some old
      → (update is_registered encrypt_secret writes id req s).1 ≡ inr h
      → (build_hypervisor_credentials decrypt_secret text_value h).password ≡ (
          if update_secret req == ""
          then (build_hypervisor_credentials decrypt_secret text_value old).password
          else update_secret req)
  unfolding update update_found update_encrypted secret_after stored_secret
      build_hypervisor_credentials updated_hypervisor
  credentials-update id req s old h found done = elim (Bool-cases (update_secret req == "")) [
    | inl b ↦
        rw
          (
            b,
            (store_hypervisor-stores is_registered encrypt_secret writes
                (updated_hypervisor req old.encrypted_secret old) s h (rw (found, b) at done)).0,
          )
          refl
    | inr b ↦ elim (Option-cases (encrypt_secret (update_secret req))) [
      | inl e ↦ absurd (ground (arith, rw (found, b, e) at done))
      | inr (encoded, e) ↦
          rw
            (
              b,
              (store_hypervisor-stores is_registered encrypt_secret writes
                  (updated_hypervisor req encoded old) s h (rw (found, b, e) at done)).0,
              cipher (update_secret req) encoded e,
            )
            refl
    ]
  ]
