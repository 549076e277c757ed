-- ===== src/Balance/Providers.antt =====
-- internal/balance/providers.go, and `Sources` of internal/balance/source.go. `getJSON` is a parameter: what the
-- provider's answer decodes to for a key, none where the call fails. A field that is missing is 0. The subtraction of
-- float64 is a parameter too.
use keypooler.Base.{ℕ, String, Option, none, some, List, [], ◌∷◌}
use keypooler.Float64.{Float64, zero_f, fmax}
use keypooler.Crypto.{Bytes}
use keypooler.Keypool.Types.{Balance}
use keypooler.Keypool.Budget.{unit_usd, unit_credits}
use keypooler.Balance.{Source}

-- The fields of the body that are read, with the names of the program.
pub record FirecrawlData : Type 0 where
  pub remaining : Float64
  pub plan : Float64
  pub period_end : Option ℕ

pub record TavilyBody : Type 0 where
  pub key_usage : Float64
  pub key_limit : Option Float64
  pub account_usage : Float64
  pub account_limit : Float64

pub record ApifyData : Type 0 where
  pub end_at : Option ℕ
  pub max_usd : Float64
  pub used_usd : Float64

-- The zero time, until the syncer sets it.
abbrev unchecked : ℕ
unchecked = 0

module _ (subtract : Float64 → Float64 → Float64) where
  unfoldable pub firecrawl_balance : FirecrawlData → Balance
  unfolding fmax
  firecrawl_balance d = record {
    used = fmax (subtract d.plan d.remaining) zero_f;
    limit = d.plan;
    unit = unit_credits;
    resets_at = d.period_end;
    checked_at = unchecked;
  }

abbrev credits : Float64 → Float64 → Balance
credits used limit = record {
  used = used;
  limit = limit;
  unit = unit_credits;
  resets_at = none;
  checked_at = unchecked;
}

-- The key's own limit, or else the account's.
abbrev tavily_limited : TavilyBody → Option Float64 → Balance
tavily_limited b (some limit) = credits b.key_usage limit
tavily_limited b none = credits b.account_usage b.account_limit

unfoldable pub tavily_balance : TavilyBody → Balance
tavily_balance b = tavily_limited b b.key_limit

unfoldable pub apify_balance : ApifyData → Balance
apify_balance d = record {
  used = d.used_usd;
  limit = d.max_usd;
  unit = unit_usd;
  resets_at = d.end_at;
  checked_at = unchecked;
}

-- A `Check`: the call, and then the conversion.
unfoldable pub check_with : {B : Type 0} → (Bytes → Option B) → (B → Balance) → Source
check_with get_json convert key = elim (get_json key) [
  | none ↦ none
  | some body ↦ some (convert body)
]

unfoldable pub sources :
    (Float64 → Float64 → Float64)
    → (Bytes → Option FirecrawlData)
    → (Bytes → Option TavilyBody)
    → (Bytes → Option ApifyData)
    → List (String × Source)
unfolding check_with
sources subtract get_firecrawl get_tavily get_apify =
    ("firecrawl_scrape", check_with get_firecrawl (firecrawl_balance subtract))
    ∷ ("tavily_search", check_with get_tavily tavily_balance)
    ∷ ("apify_actor", check_with get_apify apify_balance)
    ∷ []
