-- ===== src/Examples/Storing.antt =====
-- A store with two tiers, one of them full.
use keypooler.Base.{◌≡◌, refl, String, true, Option, none, some, List, [], ◌∷◌}
use keypooler.Base.Int.{pos}
use keypooler.Float64.{nan}
use keypooler.Json.{end_of}
use keypooler.Db.{Tier, TierFeature, Key, Consumer}
use keypooler.Float64.{zero_f}
use keypooler.Db.Postgres.Spend.{works, loses_reply}
use keypooler.Db.Adapter.{WriteError}
use keypooler.Db.Store.{Store, Weather, any, delete_where}
use keypooler.Db.Store.Tiers.{insert_tier_features, set_tier_features}
use keypooler.Db.Store.Keys as Keys
use keypooler.Db.Store.Keys.{Codec, key_row, insert_secrets, get_all_keys, keys_of}
use keypooler.Db.Postgres.Spend.{budget_columns, budget_of}
use keypooler.Db.Store.{order_by, place}
use keypooler.Db.Store.Created.{In, stored, get_all_keys-create_key}
use keypooler.Db.Store.Features.{features_of, set_tier_features-features_of}
use keypooler.Db.Store.References.{Linked}
use keypooler.Db.Store.References.Histories.{
  Write, create_tier, create_key, create_consumer, add_consumer_scope, delete_tier, delete_key,
  empty_store, write_all, write_all-Linked,
}

abbrev calm : Weather
calm = record { reading = true; writing = works; text_before = λ s t. true; now = 7 }

-- What is written is committed, and the answer is lost.
abbrev lossy : Weather
lossy = record { reading = true; writing = loses_reply; text_before = λ s t. true; now = 8 }

abbrev codec : Codec
codec = record { marshal = λ m. some "{}"; unmarshal = λ text. some (some end_of) }

abbrev tier : String → Tier
tier id = record { id = id; name = id; description = ""; created_at = 0 }

abbrev feature : String → String → TierFeature
feature id name = record {
  tier_id = id;
  feature = name;
  rate_limit = pos 2;
  window_seconds = pos 60;
}

abbrev two_tiers : Store
two_tiers = record empty_store {
  tiers = tier "free" ∷ tier "paid" ∷ [];
  tier_features = feature "free" "tts" ∷ feature "paid" "tts" ∷ [];
}

abbrev set_free : Store × Option WriteError
set_free = set_tier_features calm two_tiers "free" (feature "" "ocr" ∷ [])

free_set : set_free ≡ (set_free.0, none)
unfolding set_tier_features insert_tier_features delete_where any
free_set = refl

set_tier_features-features_of_example :
    (features_of "free" set_free.0.tier_features ≡ feature "free" "ocr" ∷ [])
    × (set_free.0 ≡ record two_tiers { tier_features = set_free.0.tier_features })
set_tier_features-features_of_example =
    set_tier_features-features_of calm two_tiers set_free.0 "free" "free" (feature "" "ocr" ∷ [])
      free_set

abbrev key : Key
key = record {
  id = "k";
  name = "k";
  key_value = [];
  tier_id = "free";
  is_active = true;
  expires_at = none;
  usage_limit = none;
  usage_count = 0;
  usage_window_seconds = none;
  usage_window_start = none;
  exhausted_until = none;
  budget = none;
  spent = zero_f;
  spent_period_start = none;
  metadata = end_of;
  created_at = 0;
}

abbrev pub with_key : Store × Option WriteError
with_key = Keys.create_key codec calm two_tiers key []

key_created : with_key ≡ (with_key.0, none)
unfolding Keys.create_key key_row budget_columns insert_secrets any
key_created = refl

keys_read : get_all_keys codec calm with_key.0 ≡ some (stored 7 key ∷ [])
unfolding Keys.create_key key_row budget_columns budget_of insert_secrets any get_all_keys keys_of
    order_by place
keys_read = refl

get_all_keys-create_key_example : In (stored 7 key) (stored 7 key ∷ [])
get_all_keys-create_key_example =
    get_all_keys-create_key codec calm calm two_tiers with_key.0 key [] "{}" (stored 7 key ∷ [])
      refl refl refl key_created keys_read

abbrev reader : Consumer
reader = record {
  id = "c";
  name = "reader";
  token_hash = "t";
  description = "";
  is_active = true;
  created_at = 0;
}

-- The tier cannot be deleted while its key is there.
abbrev history : List (Weather × Write)
history =
    (calm, create_tier (tier "free") (feature "" "tts" ∷ []))
    ∷ (lossy, create_key key (record { key_id = "k"; name = "s"; value = [] } ∷ []))
    ∷ (calm, create_consumer reader)
    ∷ (calm, add_consumer_scope "c" "free")
    ∷ (calm, delete_tier "free")
    ∷ (lossy, delete_key "k")
    ∷ (calm, delete_tier "free")
    ∷ []

write_all-Linked_example : Linked (write_all codec (λ a b. nan) empty_store history)
write_all-Linked_example = write_all-Linked codec (λ a b. nan) history
