-- ===== src/Protocol/Targets.antt =====
-- What the filters of packages/effect-tls-client/src/internal/Protocol.ts let through: which of the
-- optional fields of a request and of a configuration are there.
use Prim.Native.String.{String}
use effect_tls_client.Prelude.{ℕ, ◌≡◌, ◌↔◌, refl, true, Option, none, some, List, arith}
use effect_tls_client.Protocol.Metadata.{SessionConfig, SessionConfigWire, RequestMeta}
use effect_tls_client.Protocol.Schema.{
  JsonCodec, MetaSchema, Meta, exactly_one, check_session_config, check_nested_config,
  check_request, check_meta, checked, decode_meta, request, session_config_wire,
}

-- One of two optional values is there, and the other is not.
pub data OneOf {ℓ κ} {A : Type ℓ} {B : Type κ} : Option A → Option B → Type (ℓ ⊔ κ) where
  first : (a : A) → OneOf (some a) none
  second : (b : B) → OneOf none (some b)

-- A configuration names a profile or brings its own, and a request is for a session or brings a
-- configuration.
abbrev pub OneProfile : SessionConfig → Type 0
OneProfile config = OneOf config.profile config.custom_profile

pub data OneTarget : Option String → Option SessionConfig → Type 0 where
  known_session : (session_id : String) → OneTarget (some session_id) none
  own_config : (config : SessionConfig) → OneProfile config → OneTarget none (some config)

exactly_one-OneOf {ℓ κ} :
    {A : Type ℓ} {B : Type κ} (a : Option A) (b : Option B) → exactly_one a b ≡ true → OneOf a b
exactly_one-OneOf none none h = absurd (ground arith)
exactly_one-OneOf none (some b) h = second b
exactly_one-OneOf (some a) none h = first a
exactly_one-OneOf (some a) (some b) h = absurd (ground arith)

OneOf-exactly_one {ℓ κ} :
    {A : Type ℓ} {B : Type κ} {a : Option A} {b : Option B} → OneOf a b → exactly_one a b ≡ true
OneOf-exactly_one (first a) = refl
OneOf-exactly_one (second b) = refl

target_of :
    (session_id : Option String) (config : Option SessionConfig)
    → check_nested_config config ≡ true
    → OneOf session_id config
    → OneTarget session_id config
unfolding check_nested_config check_session_config
target_of _ _ h (first id) = known_session id
target_of _ _ h (second config) =
    own_config config (exactly_one-OneOf config.profile config.custom_profile h)

OneTarget-checks :
    {session_id : Option String} {config : Option SessionConfig}
    → OneTarget session_id config
    → (check_nested_config config ≡ true) × (exactly_one session_id config ≡ true)
unfolding check_nested_config check_session_config
OneTarget-checks (known_session id) = (refl, refl)
OneTarget-checks (own_config config one) = (OneOf-exactly_one one, refl)

checked-some :
    (s : MetaSchema) (o : Option (Meta s)) (meta : Meta s)
    → checked s o ≡ some meta
    → (o ≡ some meta) × (check_meta s meta ≡ true)
checked-some s none meta h = absurd (ground arith)
checked-some s (some m) meta h = ground arith

check_request-OneTarget :
    (meta : RequestMeta) → (check_request meta ≡ true) ↔ OneTarget meta.session_id meta.config
unfolding check_request
check_request-OneTarget meta = (
  λ h.
      target_of meta.session_id meta.config (ground arith)
        (exactly_one-OneOf meta.session_id meta.config (ground arith)),
  λ one. let (nested, target) = OneTarget-checks one in ground arith,
)

decode_meta-checks :
    (codec : JsonCodec) (s : MetaSchema) (bytes : List ℕ) (meta : Meta s)
    → (decode_meta codec s bytes ≡ some meta)
      ↔ ((codec.decode s bytes ≡ some meta) × (check_meta s meta ≡ true))
unfolding decode_meta
decode_meta-checks codec s bytes meta =
    (checked-some s (codec.decode s bytes) meta, λ (e, h). rw (e, h) refl)

-- Whatever the JSON codec reads: bytes decode as a request exactly if the fields are read from them
-- and either name a session and no configuration, or no session and a configuration with a profile
-- that is named or given, not both; and they decode as the metadata of a new session exactly if the
-- fields are read and the configuration has a profile that is named or given, not both.
pub decode_meta-targets :
    (codec : JsonCodec) (bytes : List ℕ) (meta : RequestMeta) (wire : SessionConfigWire)
    → ((decode_meta codec request bytes ≡ some meta)
        ↔ ((codec.decode request bytes ≡ some meta) × OneTarget meta.session_id meta.config))
      × ((decode_meta codec session_config_wire bytes ≡ some wire)
          ↔ ((codec.decode session_config_wire bytes ≡ some wire) × OneProfile wire.config))
unfolding check_meta check_session_config
decode_meta-targets codec bytes meta wire =
    let read = decode_meta-checks codec request bytes meta in
    let read_wire = decode_meta-checks codec session_config_wire bytes wire in
    let target = check_request-OneTarget meta in
    (
      (λ h. ((read.0 h).0, target.0 (read.0 h).1), λ (e, one). read.1 (e, target.1 one)),
      (
        λ h. ((read_wire.0 h).0, exactly_one-OneOf _ _ (read_wire.0 h).1),
        λ (e, one). read_wire.1 (e, OneOf-exactly_one one),
      ),
    )
