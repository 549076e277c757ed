-- ===== src/Db/Store/Callers.antt =====
-- The consumers under their token's hash.
use keypooler.Base.{
  ◌≡◌, refl, sym, ap, ◌∙◌, String, Bool, true, false, ◌&&◌, ◌||◌, Option, none, some, List, [], ◌∷◌,
  ◌++◌, arith, str_eq, eq_iff,
}
use keypooler.Db.{Consumer}
use keypooler.Db.Postgres.Spend.{Ending, works, refuses, loses_reply}
use keypooler.Db.Store.{Store, Weather, any, delete_where, select_where, first, commit}
use keypooler.Db.Store.Consumers.{drop_consumer, delete_consumer}

abbrev has_hash : String → List Consumer → Bool
has_hash hash = any λ (c : Consumer). str_eq c.token_hash hash

-- No two consumers share a hash: the unique index `idx_consumers_token_hash`.
abbrev pub DistinctHashes : List Consumer → Type 0
DistinctHashes [] = Unit
DistinctHashes (c ∷ cs) = (has_hash c.token_hash cs ≡ false) × DistinctHashes cs

-- Whom a hash finds.
abbrev pub owner : String → List Consumer → Option Consumer
owner hash cs = first (select_where (λ (c : Consumer). str_eq c.token_hash hash && c.is_active) cs)

abbrev pub without : String → List Consumer → List Consumer
without id = delete_where (λ (c : Consumer). str_eq c.id id)

none_owns : (hash : String) (cs : List Consumer) → has_hash hash cs ≡ false → owner hash cs ≡ none
unfolding any select_where first
none_owns hash [] h = refl
none_owns hash (c ∷ cs) h = ground (arith, none_owns hash cs)

has_hash-without :
    (hash id : String) (cs : List Consumer)
    → has_hash hash cs ≡ false
    → has_hash hash (without id cs) ≡ false
unfolding any delete_where
has_hash-without hash id [] h = refl
has_hash-without hash id (c ∷ cs) h = ground (arith, has_hash-without hash id cs)

owner-without :
    (id hash : String) (d : Consumer) (cs : List Consumer)
    → DistinctHashes cs
    → owner hash cs ≡ some d
    → str_eq d.id id ≡ true
    → owner hash (without id cs) ≡ none
unfolding any select_where delete_where first
owner-without id hash d [] u o e = refl
owner-without id hash d (c ∷ cs) u o e = ground (
  arith,
  owner-without id hash d cs u.1,
  none_owns hash (without id cs),
  has_hash-without hash id cs,
  eq_iff c.token_hash hash,
  eq_iff c.id id,
  eq_iff d.id id,
)

pub without-DistinctHashes :
    (id : String) (cs : List Consumer) → DistinctHashes cs → DistinctHashes (without id cs)
unfolding delete_where
without-DistinctHashes id [] u = tt
without-DistinctHashes id (c ∷ cs) u =
    ground (arith, without-DistinctHashes id cs u.1, has_hash-without c.token_hash id cs u.0)

has_hash-append :
    (hash : String) (cs : List Consumer) (c : Consumer)
    → has_hash hash (cs ++ (c ∷ [])) ≡ (has_hash hash cs || str_eq c.token_hash hash)
unfolding any
has_hash-append hash [] c = ground (arith)
has_hash-append hash (d ∷ cs) c = ground (arith, has_hash-append hash cs c)

pub append-DistinctHashes :
    (cs : List Consumer) (c : Consumer)
    → has_hash c.token_hash cs ≡ false
    → DistinctHashes cs
    → DistinctHashes (cs ++ (c ∷ []))
unfolding any
append-DistinctHashes [] c h u = (refl, tt)
append-DistinctHashes (d ∷ cs) c h u = (
  ground (
    arith,
    has_hash-append d.token_hash cs c,
    eq_iff c.token_hash d.token_hash,
    eq_iff d.token_hash c.token_hash,
  ),
  append-DistinctHashes cs c (ground (arith)) u.1,
)

pub none_taken :
    (c : Consumer) (cs : List Consumer)
    → any
        (λ (d : Consumer).
          str_eq d.id c.id || (str_eq d.name c.name || str_eq d.token_hash c.token_hash))
        cs
      ≡ false
    → has_hash c.token_hash cs ≡ false
unfolding any
none_taken c [] h = refl
none_taken c (d ∷ cs) h = ground (arith, none_taken c cs)

dropped_consumers :
    (ending : Ending) (st st' : Store) (id : String) (present : Bool)
    → commit ending st (drop_consumer st id present) ≡ (st', none)
    → st'.consumers ≡ without id st.consumers
dropped_consumers refuses st st' id present e = cc
dropped_consumers works st st' id true e = ap (λ x. x.0.consumers) (sym e)
dropped_consumers works st st' id false e = cc
dropped_consumers loses_reply st st' id true e = cc
dropped_consumers loses_reply st st' id false e = cc

-- Where no two consumers share a hash, a consumer that has been deleted is found under no hash any more.
pub delete_consumer-owner :
    (w : Weather) (st st' : Store) (id hash : String) (c : Consumer)
    → DistinctHashes st.consumers
    → owner hash st.consumers ≡ some c
    → str_eq c.id id ≡ true
    → delete_consumer w st id ≡ (st', none)
    → owner hash st'.consumers ≡ none
unfolding delete_consumer
delete_consumer-owner w st st' id hash c u o same e =
    ap (owner hash) (dropped_consumers w.writing st st' id _ e)
    ∙ owner-without id hash c st.consumers u o same
