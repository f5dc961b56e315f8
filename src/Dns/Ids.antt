-- ===== src/Dns/Ids.antt =====
-- src/setka/dns_resolver.cpp, `LookupThread::FindFreeId`: the choice of an id for a new request.
pub mod Free
use setka.Prelude.{
  ℕ, ◌+◌, ◌-◌, Bool, not, Option, none, some, List, [], ◌∷◌, ltb, ◌==◌, if◌then◌else◌,
}
use setka.Std.Map.{Map}

module _ {ℓ} {V : Type ℓ} where
  -- The key that `--idMap.end()` points to.
  pub last_key : ℕ → Map V → ℕ
  last_key k [] = k
  last_key k ((j, v) ∷ m) = last_key j m

  -- The loop over neighbours: `i1` stands at the key `k`, and `i2` at the rest.
  pub scan_gap : ℕ → Map V → Option ℕ
  scan_gap k [] = none
  scan_gap k ((j, v) ∷ m) = if ltb 1 (j - k) then some (k + 1) else scan_gap j m

  -- `none` is the exception `too_many_requests`.
  unfoldable pub find_free_id : Map V → Option ℕ
  unfolding last_key scan_gap
  find_free_id [] = some 0
  find_free_id ((k, v) ∷ m) =
      if not (k == 0)
      then some (k - 1)
      else if not (last_key k m == 0xffff)
      then some (last_key k m + 1)
      else scan_gap k m
