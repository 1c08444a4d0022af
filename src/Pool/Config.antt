-- ===== src/Pool/Config.antt =====
-- crates/core/src/pool.rs: `PoolConfig`, its checks, and when an idle session has expired. A duration is a
-- number of nanoseconds, and an instant one on a clock that does not go back.
use babar.Prelude.{
  ℕ, ◌-◌, List, ◌∷◌, Option, none, some, Bool, true, false, ◌&&◌, ◌||◌, Result, ok, err, ◌>>◌, ltb,
  leb, ◌==◌, if◌then◌else◌,
}
use babar.Rust.{ascii, equals}
use babar.Error.{Error, closed, io, protocol, server, config}

pub data HealthCheck : Type 0 where
  no_check ping : HealthCheck
  reset_query : List ℕ → HealthCheck

pub record PoolConfig : Type 0 where
  pub min_idle : ℕ
  pub max_size : ℕ
  pub acquire_timeout : ℕ
  pub idle_timeout : Option ℕ
  pub max_lifetime : Option ℕ
  pub health_check : HealthCheck

abbrev pub default_config : PoolConfig
default_config = record {
  min_idle = 0;
  max_size = 16;
  acquire_timeout = 30_000_000_000;
  idle_timeout = none;
  max_lifetime = none;
  health_check = no_check;
}

abbrev is_zero_timeout : Option ℕ → Bool
is_zero_timeout none = false
is_zero_timeout (some t) = t == 0

abbrev refuse_if : Bool → List ℕ → Result Error (Unit {0})
refuse_if b message = if b then err (config message) else ok tt

-- `PoolConfig::validate`.
unfoldable pub validate : PoolConfig → Result Error (Unit {0})
validate c = do
  refuse_if (c.max_size == 0) (ascii "pool max_size must be greater than zero")
  refuse_if (ltb c.max_size c.min_idle) (ascii "pool min_idle cannot be greater than max_size")
  refuse_if (c.acquire_timeout == 0) (ascii "pool acquire_timeout must be greater than zero")
  refuse_if (is_zero_timeout c.idle_timeout) (ascii "pool idle_timeout must be greater than zero")
  refuse_if (is_zero_timeout c.max_lifetime) (ascii "pool max_lifetime must be greater than zero")

-- A session is the number of the connection, in the order in which they were opened.
pub record IdleSession : Type 0 where
  pub session : ℕ
  pub created_at : ℕ
  pub idle_since : ℕ

abbrev reached : Option ℕ → ℕ → Bool
reached none elapsed = false
reached (some limit) elapsed = leb limit elapsed

-- `PoolInner::is_expired`.
unfoldable pub is_expired : PoolConfig → (now : ℕ) → IdleSession → Bool
is_expired c now idle =
    reached c.idle_timeout (now - idle.idle_since) || reached c.max_lifetime (now - idle.created_at)

abbrev is_class_08 : List ℕ → Bool
is_class_08 (a ∷ b ∷ rest) = a == b'0' && b == b'8'
is_class_08 code = false

-- Whether a connection is not to be used again after an error.
unfoldable pub should_recycle : Error → Bool
should_recycle (closed x) = true
should_recycle (io n) = true
should_recycle (protocol m) = true
should_recycle (server e x) =
    is_class_08 e.code || equals e.code (ascii "26000") || equals e.code (ascii "08P01")
should_recycle e = false

-- `PoolConnection::record_error`, `mark_broken`: the flag after an error.
abbrev pub record_error : (broken : Bool) → Error → Bool
record_error broken e = broken || should_recycle e
