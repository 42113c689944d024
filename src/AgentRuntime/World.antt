-- ===== src/AgentRuntime/World.antt =====
-- packages/agent-runtime: the store, and what the manager's calls change.
use dev_plane.Prelude.{ℕ, suc, ◌≡◌, Option, none, some, List, Result, ok, err}
use dev_plane.Prelude.Int.{ℤ}
use dev_plane.Text.{Text}
use dev_plane.AgentRuntime.Capabilities.{Capability}
use dev_plane.AgentRuntime.Protocol.{
  Thread, Turn, Item, TurnStatus, ApprovalResponse, InvalidError, Event,
}
use dev_plane.AgentRuntime.Registry.{RegistryError}

-- store.go, without the lists, which nothing here calls. `S` is what the store holds.
pub record Store (S : Type 0) : Type 0 where
  pub get_thread : S → Text → Result Text Thread
  pub get_turn : S → Text → Result Text Turn
  pub get_item : S → Text → Result Text Item
  pub put_thread : S → Thread → Option Text × S
  pub put_turn : S → Turn → Option Text × S
  pub put_item : S → Item → Option Text × S

-- What is promised of a store: a record that is put is read back under the key that it had, and a
-- put of one kind leaves the other kinds as they are.
pub record StoreLaws {S : Type 0} (st : Store S) : Type 0 where
  pub item_kept :
      (s : S) (key : Text) (old new : Item)
      → st.get_item s key ≡ ok old
      → new.id ≡ old.id
      → (st.put_item s new).0 ≡ none
      → st.get_item (st.put_item s new).1 key ≡ ok new
  pub turn_kept :
      (s : S) (key : Text) (old new : Turn)
      → st.get_turn s key ≡ ok old
      → new.id ≡ old.id
      → (st.put_turn s new).0 ≡ none
      → st.get_turn (st.put_turn s new).1 key ≡ ok new
  pub item-turn :
      (s : S) (i : Item) (key : Text) → st.get_turn (st.put_item s i).1 key ≡ st.get_turn s key
  pub item-thread :
      (s : S) (i : Item) (key : Text) → st.get_thread (st.put_item s i).1 key ≡ st.get_thread s key
  pub turn-item :
      (s : S) (t : Turn) (key : Text) → st.get_item (st.put_turn s t).1 key ≡ st.get_item s key
  pub turn-thread :
      (s : S) (t : Turn) (key : Text) → st.get_thread (st.put_turn s t).1 key ≡ st.get_thread s key

pub data AgentError : Type 0 where
  nil_manager nil_registry nil_store nil_thread ids_required ownership_mismatch : AgentError
  invalid_decision : ApprovalResponse → AgentError
  thread_unread turn_unread item_unread : Text → AgentError
  not_approval not_paused : Text → AgentError
  indeterminate : Item → AgentError
  unregistered : RegistryError → AgentError
  unsupported : Text → Capability → AgentError
  provider_failed sink_failed : Text → AgentError
  invalid : InvalidError → AgentError
  thread_unstored turn_unstored item_unstored : Text → AgentError
  bad_transition : TurnStatus → TurnStatus → AgentError
  turn_id_missing item_missing : Event → AgentError

-- `answered` is what was sent to providers that asked for approval, the last one first. `ticks` is
-- the number of the calls of providers and of the readings of the clock.
pub record World (S : Type 0) : Type 0 where
  pub held : S
  pub answered : List ApprovalResponse
  pub ticks : ℕ

abbrev pub Step : Type 0 → Type 0 → Type 0
Step S A = World S → Result AgentError A × World S

module _ {S : Type 0} where
  abbrev pub read : {X : Type 0} → (Text → AgentError) → (S → Result Text X) → Step S X
  read wrap get w = (elim (get w.held) [ ok x ↦ ok x | err e ↦ err (wrap e) ], w)

  -- the result of a put, and the store that it leaves
  abbrev pub write : (Text → AgentError) → (S → Option Text × S) → Step S (Unit {0})
  write wrap put w = (
    elim (put w.held).0 [ none ↦ ok tt | some e ↦ err (wrap e) ],
    record w { held = (put w.held).1 },
  )

  abbrev pub tick : World S → World S
  tick w = record w { ticks = suc w.ticks }

  -- `m.now()`
  abbrev pub now : (ℕ → ℤ) → Step S ℤ
  now clock w = (ok (clock w.ticks), tick w)

  -- a call of a provider, which fails with its own error
  abbrev pub calling : {X : Type 0} → (ℕ → Result Text X) → Step S X
  calling call w = (elim (call w.ticks) [ ok x ↦ ok x | err e ↦ err (provider_failed e) ], tick w)
