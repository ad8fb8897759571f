-- ===== src/Framework/ImageFetch/Tests.antt =====
-- Concrete inputs for the theorem on the image fetch.
use mangarr_gateway.Prelude.{String, [], if◌then◌else◌, length, nat_beq, none, some, ℕ, ◌∷◌, ◌≤◌}
use mangarr_gateway.Framework.ProxyPool.{PooledProxy, ProxyPool}
use mangarr_gateway.Framework.ImageFetch.{Answer, served, failed, fetch_image_via_pool}
use mangarr_gateway.Framework.ImageFetch.Attempts.{
  NoRepeat, IsExplained, fetch_image_via_pool_sound,
}

abbrev at_port : String → PooledProxy
at_port port = record { host = "proxy"; port = port; username = none; password = none }

abbrev pool : ProxyPool
pool = record { proxies = at_port "1" ∷ at_port "2" ∷ []; cooldown_seconds = 60; cooldowns = [] }

-- The first attempt fails.
abbrev fetch : ℕ → PooledProxy → Answer ℕ
fetch n p = if nat_beq n 0 then failed "upstream 403" else served 7

fetch_image_via_pool_sound_example :
    NoRepeat [] (fetch_image_via_pool fetch (λ n. n) (λ n. 0) 3 (some (at_port "1")) pool).used
    × (length (fetch_image_via_pool fetch (λ n. n) (λ n. 0) 3 (some (at_port "1")) pool).used ≤ 3)
    × IsExplained fetch
        (λ n. n)
        (λ n. 0)
        none
        (fetch_image_via_pool fetch (λ n. n) (λ n. 0) 3 (some (at_port "1")) pool)
fetch_image_via_pool_sound_example =
    fetch_image_via_pool_sound fetch (λ n. n) (λ n. 0) 3 (some (at_port "1")) pool
