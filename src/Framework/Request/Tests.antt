-- ===== src/Framework/Request/Tests.antt =====
-- Concrete inputs for the theorem on a request.
use mangarr_gateway.Prelude.{
  [], false, if◌then◌else◌, length, nat_beq, none, refl, true, ℕ, ◌*◌, ◌+◌, ◌-◌, ◌≡◌, ◌≤◌,
}
use mangarr_gateway.Framework.Request.Responses.{Response, cloudflare, is_cf_challenge}
use mangarr_gateway.Framework.Request.{Reply, responded, returned, World, Context, request}
use mangarr_gateway.Framework.Request.Sends.{IsFinal}
use mangarr_gateway.Framework.Request.Ends.{sends_of_request, request-Within}

-- A Cloudflare challenge, and a page.
abbrev challenge : Response
challenge = record { status = 503; server = cloudflare; cf_mitigated = true; body = [] }

abbrev page : Response
page = record { status = 200; server = cloudflare; cf_mitigated = false; body = [] }

abbrev context : Context
context = record {
  source_key = "comix";
  is_cloudflare = true;
  csrf_active = false;
  is_origin_block = none;
  solve_search_via_proxy_pool = false;
  image_proxy_max_attempts = 3;
  retry_attempts = 4;
}

abbrev world : World
world = record { sent = []; pins = record { pool = none; pins = [] } }

-- The first send meets the challenge.
abbrev answer : ℕ → Reply
answer n = if nat_beq n 0 then responded challenge else responded page

request-Within_example :
    IsFinal (request context answer (λ n. n) (λ n. 0) none world).0
    × (length (request context answer (λ n. n) (λ n. 0) none world).1.sent
        ≤ length world.sent + (4 - 1 + 1) * sends_of_request context answer (λ n. n) (λ n. 0))
request-Within_example = request-Within context answer (λ n. n) (λ n. 0) none world

resolved : (request context answer (λ n. n) (λ n. 0) none world).0 ≡ returned page
unfolding request is_cf_challenge
resolved = refl
