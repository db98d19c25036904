-- ===== src/Store.antt =====
-- common/single_token_store.go and common/single_session_cache.go: stores of one entry.
-- A store is filled once its context is cancelled, which `Put` does last; calls are steps of a
-- sequence. `Await` waits, here as `none`, until the store is filled. A nil pointer is `none`.
pub mod FirstPut
mod Tests
use qperf_go.Prelude.{ℕ, Bool, true, false, Option, none, some, List, [], ◌∷◌, if◌then◌else◌}
use qperf_go.ByteCount.{same_text}

-- A key is the bytes of a string; `T` is a pointer to a token or a session.
pub record Entry (T : Type 0) : Type 0 where
  pub key : List ℕ
  pub value : T

module _ {T : Type 0} where
  unfoldable pub put : Option (Entry T) → List ℕ → T → Option (Entry T)
  put none key value = some (record { key = key; value = value })
  put (some e) key value = some e

  -- `SingleTokenStore.Pop`, which does not remove the token.
  unfoldable pub pop : Option (Entry T) → List ℕ → Option T
  pop none key = none
  pop (some e) key = if same_text key e.key then some e.value else none

  -- `SingleSessionCache.Get` answers its named result, which nothing sets.
  unfoldable pub get : Option (Entry T) → List ℕ → Option T × Bool
  get none key = (none, false)
  get (some e) key = if same_text key e.key then (none, true) else (none, false)

  unfoldable pub await : Option (Entry T) → Option (List ℕ × T)
  await none = none
  await (some e) = some (e.key, e.value)
