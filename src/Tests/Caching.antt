-- ===== src/Tests/Caching.antt =====
-- Inputs for the cache of dialers and the buffered connection (wsnet/cache.go and wsnet/conn.go).
use coder_cli.Prelude.{
  ◌≡◌, refl, ℕ, true, false, ◌&&◌, if◌then◌else◌, ℕ_discrete, none, some, [], ◌∷◌, All,
}
use coder_cli.Prelude.Texts.{Bytes, codes, same, Bytes-discrete}
use coder_cli.Prelude.Dict.{lookup}
use coder_cli.Wsnet.Cache.{
  DialerCache, Probe, dial_cache, should_evict, evict_one, nobody, touches, stores, DialResult,
  cache_closed, dialer, dial, closed_ok, Op, dials, evicts, closes_all, perform_all,
}
use coder_cli.Wsnet.Cache.Laws.{
  IsValid, held_by, perform_all-IsValid, lookup-evict_one, close_sound,
}
use coder_cli.Wsnet.Conn.{new_conn, init, resumes, low, shuts, writes, react_all}
use coder_cli.Wsnet.Conn.Laws.{IsGood, react_all-IsGood}
use coder_cli.Wsnet.Cache

abbrev healthy : Probe
healthy = record {
  signaling_closed = λ d. false;
  is_idle = λ d. true;
  pings = λ d. true;
  closes = λ d. true;
}

abbrev key_a : Bytes
key_a = codes "a"

abbrev one_dialer : DialerCache
one_dialer = record {
  ttl = 10;
  is_closed = false;
  dialers = (key_a, 1) ∷ [];
  atime = (key_a, 5) ∷ [];
  shut = [];
}

perform_all-IsValid_example : IsValid (
    perform_all healthy
      (dials key_a 1 (some 7) nobody
        ∷ evicts key_a 7 true (touches key_a 3 ∷ []) (stores key_a 4 9 ∷ [])
        ∷ dials key_a 2 (some 8) nobody
        ∷ closes_all
        ∷ [])
      (dial_cache 10))
perform_all-IsValid_example = perform_all-IsValid healthy 10 (
    dials key_a 1 (some 7) nobody
    ∷ evicts key_a 7 true (touches key_a 3 ∷ []) (stores key_a 4 9 ∷ [])
    ∷ dials key_a 2 (some 8) nobody
    ∷ closes_all
    ∷ [])

-- A dialer that was replaced in the meantime is closed, and the one in the cache stays.
lookup-evict_one_example :
    let c' = evict_one healthy key_a 9 true [] [] one_dialer in
    let gone = same key_a key_a && held_by 9 (lookup key_a one_dialer.dialers) in
    (lookup key_a c'.dialers ≡ (if gone then none else lookup key_a one_dialer.dialers))
    × (lookup key_a c'.atime ≡ (if gone then none else lookup key_a one_dialer.atime))
    × (c'.shut ≡ 9 ∷ [])
    × (c'.is_closed ≡ false)
lookup-evict_one_example = lookup-evict_one healthy key_a 9 one_dialer key_a

found_atime : lookup key_a one_dialer.atime ≡ some 5
unfolding lookup Bytes-discrete ℕ_discrete
found_atime = refl

dialed_first : (dial healthy key_a 1 (some 7) nobody (dial_cache 10)).1 ≡ dialer 7 false
unfolding dial dial_cache lookup
dialed_first = refl

open_first : (dial_cache 10).is_closed ≡ false
unfolding dial_cache
open_first = refl

closed_first : (Cache.close healthy one_dialer).1 ≡ closed_ok
unfolding Cache.close
closed_first = refl

close_sound_example :
    ((Cache.close healthy one_dialer).0.shut ≡ 1 ∷ [])
    × All {A = ℕ} (λ d. true ≡ true) (1 ∷ [])
    × ((dial healthy key_a 3
          (some 4)
          nobody
          (perform_all healthy (closes_all ∷ []) (Cache.close healthy one_dialer).0)).1
        ≡ cache_closed)
close_sound_example =
    close_sound healthy one_dialer (closes_all ∷ []) key_a 3 (some 4) nobody closed_first

react_all-IsGood_example : IsGood (
    react_all
      (low ∷ writes 1048576 5 ∷ writes 1048576 6 ∷ resumes ∷ shuts ∷ resumes ∷ low ∷ [])
      (init new_conn))
react_all-IsGood_example =
    react_all-IsGood
      (low ∷ writes 1048576 5 ∷ writes 1048576 6 ∷ resumes ∷ shuts ∷ resumes ∷ low ∷ [])
