-- ===== src/Ws/Reconnect.antt =====
-- feishu/ws/client.py: the loop of `start`, which connects again after a failure. feishu/ws/model.py:
-- `ClientConfig`.
pub mod Ends
use open_feishu.Common.{
  ℕ, zero, suc, ◌||◌, ℤ, pos, negsuc, Bool, true, false, not, leb, if◌then◌else◌,
}

-- The numbers of seconds stand in ticks.
pub record ClientConfig : Type 0 where
  pub reconnect_count : ℤ
  pub reconnect_interval : ℕ
  pub reconnect_nonce : ℕ
  pub ping_interval : ℕ

-- `ClientConfig()`.
abbrev pub default_config : ClientConfig
default_config = record {
  reconnect_count = negsuc 0;
  reconnect_interval = 120;
  reconnect_nonce = 30;
  ping_interval = 120;
}

-- How `_await_or_stop(self._handshake())` ends: stopped, with a configuration, with an
-- `httpx.RequestError` or a FeishuServerError, or with another exception.
pub data Handshake : Type 0 where
  inactive : Handshake
  connected : ClientConfig → Handshake
  handshake_failed handshake_raised : Handshake

-- How the connection and `_serve` end: the connection closed, a transient exception, or another one.
pub data Service : Type 0 where
  closed lost service_raised : Service

-- What happens in a round of the loop: `_stopped` at each place that reads it, the two calls, and
-- the answer of `_wait_reconnect_delay`.
pub record Round : Type 0 where
  pub stopped : Bool
  pub handshake : Handshake
  pub stopped_in_handshake : Bool
  pub service : Service
  pub stopped_in_service : Bool
  pub stopped_after : Bool
  pub waited : Bool

-- How `start` ends. `no_fuel` is the model's own.
pub data Ending : Type 0 where
  returned transient_error fatal_error no_fuel : Ending

-- What a round leads to: the end, or another attempt with the configuration.
pub data Next : Type 0 where
  stop : Ending → Next
  again : ClientConfig → Next

-- `config.reconnect_count != -1 and attempts >= config.reconnect_count`.
abbrev pub exhausted : ℤ → ℕ → Bool
exhausted (negsuc zero) attempts = false
exhausted (negsuc (suc _)) attempts = true
exhausted (pos n) attempts = leb n attempts

abbrev pub wait : Bool → ClientConfig → Next
wait waited config = if waited then again config else stop returned

-- The handler of a transient error of the handshake.
unfoldable pub after_handshake : Bool → Round → ℕ → ClientConfig → Next
after_handshake auto_reconnect r attempts config =
    if r.stopped_in_handshake || not auto_reconnect
    then stop transient_error
    else if exhausted config.reconnect_count attempts
    then stop transient_error
    else wait r.waited config

-- The statements after the connection.
unfoldable pub after_service : Bool → Round → ℕ → ClientConfig → Next
after_service auto_reconnect r attempts config =
    if r.stopped_after || not auto_reconnect
    then stop returned
    else if exhausted config.reconnect_count attempts
    then stop returned
    else wait r.waited config

-- The connection, and the handler of its transient errors.
unfoldable pub served : Bool → Round → ℕ → ClientConfig → Service → Next
served auto_reconnect r attempts config service_raised = stop fatal_error
served auto_reconnect r attempts config closed = after_service auto_reconnect r attempts config
served auto_reconnect r attempts config lost =
    if r.stopped_in_service || not auto_reconnect
    then stop transient_error
    else after_service auto_reconnect r attempts config

-- What follows the handshake.
unfoldable pub shaken : Bool → Round → ℕ → ClientConfig → Handshake → Next
shaken auto_reconnect r attempts config inactive = stop returned
shaken auto_reconnect r attempts config handshake_raised = stop fatal_error
shaken auto_reconnect r attempts config handshake_failed =
    after_handshake auto_reconnect r attempts config
shaken auto_reconnect r attempts config (connected config') =
    served auto_reconnect r attempts config' r.service

-- A round of the loop.
unfoldable pub play : Bool → Round → ℕ → ClientConfig → Next
play auto_reconnect r attempts config =
    if r.stopped then stop returned else shaken auto_reconnect r attempts config r.handshake

-- The loop, which counts an attempt whenever it goes on.
unfoldable pub start_from : Bool → (ℕ → Round) → ℕ → ℕ → ClientConfig → Ending
start_from auto_reconnect rounds zero attempts config = no_fuel
start_from auto_reconnect rounds (suc fuel) attempts config =
    elim (play auto_reconnect (rounds attempts) attempts config) [
      | stop ending ↦ ending
      | again config' ↦ start_from auto_reconnect rounds fuel (suc attempts) config'
    ]

-- The fuel is the number of rounds.
unfoldable pub start : Bool → (ℕ → Round) → ℕ → Ending
start auto_reconnect rounds fuel = start_from auto_reconnect rounds fuel 0 default_config
