-- ===== src/Agent/Sessions.antt =====
-- feishu/agent/session.py: `InMemorySessionStore`, over the type of its messages. A call gets what the
-- clock reads.
pub mod History
pub mod Tests
use open_feishu.Common.{ℕ, String, Option, none, some, List, [], ◌∷◌, ◌++◌, string_eq}
use open_feishu.Dict
use open_feishu.Dict.{Dict, or_else}

pub record SessionStore (M : Type 0) : Type 0 where
  pub store : Dict String (List M)
  pub times : Dict String ℕ

module _ {M : Type 0} where
  abbrev pub init : SessionStore M
  init = record { store = []; times = [] }

  unfoldable pub get : String → SessionStore M → List M
  get id s = or_else (Dict.get id s.store) []

  unfoldable pub append : String → List M → ℕ → SessionStore M → SessionStore M
  append id messages now s = record {
    store = Dict.modify id (λ bucket. bucket ++ messages) (Dict.setdefault id [] s.store);
    times = Dict.put id now s.times;
  }

  unfoldable pub set : String → List M → ℕ → SessionStore M → SessionStore M
  set id messages now s = record {
    store = Dict.put id messages s.store;
    times = Dict.put id now s.times;
  }

  unfoldable pub clear : String → SessionStore M → SessionStore M
  clear id s = record { store = Dict.del id s.store; times = Dict.del id s.times }

  unfoldable pub updated_at : String → SessionStore M → Option ℕ
  updated_at id s = Dict.get id s.times
