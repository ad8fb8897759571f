-- ===== src/Framework/ProxyPool.antt =====
-- `ProxyPool` of src/manga_gateway/framework/proxy_pool.py and `SourcePinnedProxies` of
-- source_pin.py: which proxy is selected, cooled down and pinned. `now` is a reading of the
-- monotonic clock, and `roll` the number from which `rng.choice` takes its index. The transports
-- and the proxy file are not modelled.
pub mod Selection
use Prim.Native.String.{◌++◌ as append_text}
use mangarr_gateway.Prelude.{
  Bool, List, Option, String, [], any, false, if◌then◌else◌, leb, length, none, some, string_eq,
  suc, true, zero, ℕ, ◌%◌, ◌+◌, ◌==◌, ◌∷◌,
}
use mangarr_gateway.Prelude.Dict
use mangarr_gateway.Prelude.Dict.{Dict}

pub record PooledProxy : Type 0 where
  pub host : String
  pub port : String
  pub username : Option String
  pub password : Option String

abbrev or_empty : Option String → String
or_empty none = ""
or_empty (some u) = u

-- `selection_key`, with the port as its text
unfoldable pub selection_key : PooledProxy → String
selection_key p =
    append_text p.host
      (append_text ":" (append_text p.port (append_text ":" (or_empty p.username))))

pub record ProxyPool : Type 0 where
  pub proxies : List PooledProxy
  pub cooldown_seconds : ℕ
  pub cooldowns : Dict String ℕ

-- `_on_cooldown`, which drops an expired deadline
unfoldable pub on_cooldown : ℕ → String → Dict String ℕ → Bool × Dict String ℕ
on_cooldown now key d = elim (Dict.get d key) [
  | none ↦ (false, d)
  | some deadline ↦ if leb deadline now then (false, Dict.pop d key) else (true, d)
]

-- The comprehension of `acquire`
unfoldable pub available :
    ℕ → List String → List PooledProxy → Dict String ℕ → List PooledProxy × Dict String ℕ
unfolding on_cooldown
available now excluded [] d = ([], d)
available now excluded (p ∷ ps) d =
    if any (λ k. k == selection_key p) excluded
    then available now excluded ps d
    else (let (live, d') = on_cooldown now (selection_key p) d in
        let (rest, d'') = available now excluded ps d' in (if live then rest else p ∷ rest, d''))

abbrev pub nth : ℕ → List PooledProxy → Option PooledProxy
nth n [] = none
nth zero (p ∷ ps) = some p
nth (suc n) (p ∷ ps) = nth n ps

-- `rng.choice`
abbrev pub choice : ℕ → List PooledProxy → Option PooledProxy
choice roll ps = nth (roll % length ps) ps

unfoldable pub acquire : ℕ → ℕ → List String → ProxyPool → Option PooledProxy × ProxyPool
unfolding available
acquire now roll excluded pool =
    let (ps, d) = available now excluded pool.proxies pool.cooldowns in
    (choice roll ps, record pool { cooldowns = d })

unfoldable pub mark_failed : ℕ → PooledProxy → ProxyPool → ProxyPool
mark_failed now p pool = record pool {
  cooldowns = Dict.put pool.cooldowns (selection_key p) (now + pool.cooldown_seconds);
}

pub record SourcePinnedProxies : Type 0 where
  pub pool : Option ProxyPool
  pub pins : Dict String PooledProxy

abbrev pub pinned :
    String
    → Option PooledProxy × ProxyPool
    → Dict String PooledProxy
    → Option PooledProxy × SourcePinnedProxies
pinned source_key (none, pool) pins = (none, record { pool = some pool; pins = pins })
pinned source_key (some p, pool) pins =
    (some p, record { pool = some pool; pins = Dict.put pins source_key p })

unfoldable pub get_or_acquire :
    ℕ → ℕ → String → SourcePinnedProxies → Option PooledProxy × SourcePinnedProxies
unfolding acquire
get_or_acquire now roll source_key s = elim (Dict.get s.pins source_key) [
  | some existing ↦ (some existing, s)
  | none ↦ elim s.pool [
    | none ↦ (none, s)
    | some pool ↦ pinned source_key (acquire now roll [] pool) s.pins
  ]
]

unfoldable pub current : String → SourcePinnedProxies → Option PooledProxy
current source_key s = Dict.get s.pins source_key

abbrev pub cooled : ℕ → Option PooledProxy → ProxyPool → ProxyPool
cooled now none pool = pool
cooled now (some old) pool = mark_failed now old pool

unfoldable pub rotate :
    ℕ → ℕ → String → List String → SourcePinnedProxies → Option PooledProxy × SourcePinnedProxies
unfolding acquire mark_failed
rotate now roll source_key excluded s = elim s.pool [
  | none ↦ (none, s)
  | some pool ↦
      pinned source_key (acquire now roll excluded (cooled now (Dict.get s.pins source_key) pool))
        (Dict.pop s.pins source_key)
]
