-- ===== src/Framework/Request/Responses.antt =====
-- What src/manga_gateway/framework/context.py reads off a response: challenges and blocks. Texts are
-- lists of code points.
use mangarr_gateway.Prelude.{
  Bool, List, Option, [], false, if◌then◌else◌, leb, map, nat_beq, none, some, true, ℕ, ◌&&◌, ◌+◌,
  ◌||◌, ◌∷◌,
}
use mangarr_gateway.Package.Text.{Text, after_prefix}

-- `server` is the header's value, and `cf_mitigated` says whether that header is there.
pub record Response : Type 0 where
  pub status : ℕ
  pub server : Text
  pub cf_mitigated : Bool
  pub body : List ℕ

abbrev starts : Option Text → Bool
starts none = false
starts (some rest) = true

-- `needle in text`
unfoldable pub contains : Text → Text → Bool
unfolding after_prefix
contains needle [] = starts (after_prefix needle [])
contains needle (c ∷ text) = starts (after_prefix needle (c ∷ text)) || contains needle text

-- `str.lower()`, on ASCII
abbrev pub lower : Text → Text
lower = map (λ c. if leb 65 c && leb c 90 then c + 32 else c)

-- "cloudflare", "challenge-platform", "cf_chl", "csrf", "token", "validation" and
-- "Malicious payload"
abbrev pub cloudflare : Text
cloudflare = 99 ∷ 108 ∷ 111 ∷ 117 ∷ 100 ∷ 102 ∷ 108 ∷ 97 ∷ 114 ∷ 101 ∷ []

abbrev pub challenge_platform : Text
challenge_platform =
    99 ∷ 104 ∷ 97 ∷ 108 ∷ 108 ∷ 101 ∷ 110 ∷ 103 ∷ 101 ∷ 45 ∷ 112 ∷ 108 ∷ 97 ∷ 116 ∷ 102 ∷ 111 ∷ 114
    ∷ 109 ∷ []

abbrev pub cf_chl : Text
cf_chl = 99 ∷ 102 ∷ 95 ∷ 99 ∷ 104 ∷ 108 ∷ []

abbrev pub csrf : Text
csrf = 99 ∷ 115 ∷ 114 ∷ 102 ∷ []

abbrev pub token : Text
token = 116 ∷ 111 ∷ 107 ∷ 101 ∷ 110 ∷ []

abbrev pub validation : Text
validation = 118 ∷ 97 ∷ 108 ∷ 105 ∷ 100 ∷ 97 ∷ 116 ∷ 105 ∷ 111 ∷ 110 ∷ []

abbrev pub malicious_payload : Text
malicious_payload =
    77 ∷ 97 ∷ 108 ∷ 105 ∷ 99 ∷ 105 ∷ 111 ∷ 117 ∷ 115 ∷ 32 ∷ 112 ∷ 97 ∷ 121 ∷ 108 ∷ 111 ∷ 97 ∷ 100
    ∷ []

unfoldable pub is_cf_challenge : Response → Bool
unfolding contains
is_cf_challenge resp =
    (nat_beq resp.status 403 || nat_beq resp.status 503)
    && (contains cloudflare (lower resp.server)
        && (resp.cf_mitigated
            || (contains challenge_platform resp.body || contains cf_chl resp.body)))

unfoldable pub is_csrf_failure : Response → Bool
unfolding contains
is_csrf_failure resp =
    nat_beq resp.status 403
    && (contains csrf (lower resp.body)
        && (contains token (lower resp.body) || contains validation (lower resp.body)))

unfoldable pub is_waf_block : Response → Bool
unfolding contains
is_waf_block resp = nat_beq resp.status 403 && contains malicious_payload resp.body

-- `_PERMANENT_STATUSES`
abbrev pub is_permanent : ℕ → Bool
is_permanent status = nat_beq status 401 || (nat_beq status 403 || nat_beq status 404)

-- What `raise_for_status` of httpx lets pass.
abbrev pub is_success : ℕ → Bool
is_success status = leb 200 status && leb status 299
