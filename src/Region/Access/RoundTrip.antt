-- ===== src/Region/Access/RoundTrip.antt =====
-- Loads after stores: the same range, other ranges, other regions; and the meta data stays.
use motoko.Prelude.{
  ℕ, zero, suc, ◌+◌, ◌≤◌, ◌<◌, ◌≡◌, ◌≢◌, refl, sym, ap, ◌∙◌, List, length, get_or, get_or_ext,
  arith,
}
use motoko.Prelude.Result.{ok, ◌>>=◌}
use motoko.StableMem.{Bytes}
use motoko.StableMem.Words.{read_word_agree}
use motoko.Region.Meta.{State, offset_total_blocks, total_blocks, table_get}
use motoko.Region.Meta.Table.{table_get_agree}
use motoko.Region.Grow.{Region, block_id}
use motoko.Region.Owns.{IsState, Owns}
use motoko.Region.Access.{region_load, region_store}
use motoko.Region.Access.Locate.{locate, size_in_bytes, locate_apart, locate_bounds}
use motoko.Region.Access.Load.{gather, region_load-gather}
use motoko.Region.Access.Store.{Stored, region_store-Stored}

length-gather : (base : ℕ) (r : Region) (m : Bytes) (x n : ℕ) → length (gather base r m x n) ≡ n
unfolding gather
length-gather base r m x zero = refl
length-gather base r m x (suc n) = ap suc (length-gather base r m (x + 1) n)

get_or-gather :
    (base : ℕ) (r : Region) (m : Bytes) (x n k : ℕ)
    → k < n
    → get_or (gather base r m x n) k 0 ≡ m (locate base r (x + k))
unfolding gather
get_or-gather base r m x zero k h = absurd (omega arith)
get_or-gather base r m x (suc n) zero h = ap (λ y. m (locate base r y)) (omega arith)
get_or-gather base r m x (suc n) (suc k) h =
    get_or-gather base r m (x + 1) n k (omega arith) ∙ ap (λ y. m (locate base r y)) (omega arith)

gather_agree :
    (base : ℕ) (r : Region) (m m' : Bytes) (x n : ℕ)
    → ((k : ℕ) → k < n → m (locate base r (x + k)) ≡ m' (locate base r (x + k)))
    → gather base r m x n ≡ gather base r m' x n
gather_agree base r m m' x n h =
    get_or_ext 0 _ _ (length-gather base r m x n ∙ sym (length-gather base r m' x n)) (λ k p.
      let q : k < n = omega (arith, length-gather base r m x n) in
      get_or-gather base r m x n k q ∙ h k q ∙ sym (get_or-gather base r m' x n k q))

module _ {s : State} {r : Region} {offset : ℕ} {src : List ℕ} {m' : Bytes} (is : IsState s)
    (o : Owns s.bytes (total_blocks s) r) (fits : offset + length src ≤ size_in_bytes r)
    (st : Stored s.block_base r offset src s.bytes (length src) m') where
  -- Nothing in front of the blocks changes.
  Stored-meta : (a : ℕ) → a < s.block_base → m' a ≡ s.bytes a
  Stored-meta a h =
      st.kept a
        (λ k p e. absurd (omega (arith, locate_bounds o s.block_base (offset + k) (omega arith))))

  Stored-total : total_blocks (record s { bytes = m' }) ≡ total_blocks s
  unfolding total_blocks
  Stored-total =
      read_word_agree 4 offset_total_blocks m' s.bytes
        (λ a p q. Stored-meta a (omega (arith, is.base)))

  Stored-table : (b : ℕ) → b < total_blocks s → table_get b m' ≡ table_get b s.bytes
  Stored-table b h =
      table_get_agree b m' s.bytes
        (λ a p q. Stored-meta a (omega (arith, is.base, is.room (omega arith), is.pages)))

  -- A store keeps every region in agreement with the table.
  pub Stored-Owns :
      (q : Region)
      → Owns s.bytes (total_blocks s) q
      → Owns m' (total_blocks (record s { bytes = m' })) q
  Stored-Owns q oq = record {
    id = oq.id;
    pages = oq.pages;
    ranks = oq.ranks;
    block_lt = λ j h. omega (arith, oq.block_lt j h, Stored-total);
    entry = λ j h. Stored-table (block_id q j) (oq.block_lt j h) ∙ oq.entry j h;
    complete = λ b e lt found own.
        let lt' : b < total_blocks s = omega (arith, Stored-total) in
        oq.complete b e lt' (sym (Stored-table b lt') ∙ found) own;
  }

-- In a consistent state, a store to a region that agrees with the table, at an offset and of a
-- length within its size, succeeds, and a load of the same range from the state after it gives
-- what was stored, whatever blocks the range lies in.
pub load-store :
    (s : State) (r : Region) (offset : ℕ) (src : List ℕ)
    → IsState s
    → Owns s.bytes (total_blocks s) r
    → offset < size_in_bytes r
    → offset + length src ≤ size_in_bytes r
    → (region_store s r offset src >>= λ s'. region_load s' r offset (length src)) ≡ ok src
load-store s r offset src is o lt fits =
    let (m', e, st) = region_store-Stored s r offset src o lt fits in
    rw
      (
        e,
        region_load-gather (record s { bytes = m' }) r offset (length src)
            (Stored-Owns is o fits st r o) lt fits,
      )
      (ap ok (
        get_or_ext 0 _ src (length-gather s.block_base r m' offset (length src)) (λ k p.
          let q : k < length src =
            omega (arith, length-gather s.block_base r m' offset (length src)) in
          get_or-gather s.block_base r m' offset (length src) k q ∙ st.written k q)))

-- In a consistent state, a store within the size of one region leaves what a load within the size
-- of another region gives as it was before the store, if both agree with the table.
pub load-store_other :
    (s : State) (r q : Region) (offset : ℕ) (src : List ℕ) (at len : ℕ)
    → IsState s
    → Owns s.bytes (total_blocks s) r
    → Owns s.bytes (total_blocks s) q
    → q.id ≢ r.id
    → offset < size_in_bytes r
    → offset + length src ≤ size_in_bytes r
    → at < size_in_bytes q
    → at + len ≤ size_in_bytes q
    → (region_store s r offset src >>= λ s'. region_load s' q at len) ≡ region_load s q at len
load-store_other s r q offset src at len is o oq ne lt fits lt' fits' =
    let (m', e, st) = region_store-Stored s r offset src o lt fits in
    rw
      (
        e,
        region_load-gather (record s { bytes = m' }) q at len (Stored-Owns is o fits st q oq) lt'
            fits',
        region_load-gather s q at len oq lt' fits',
      )
      (ap ok
        (gather_agree s.block_base q m' s.bytes at len (λ k p. st.kept _ (λ j h. apart j k h p))))
  where
    apart :
        (j k : ℕ)
        → j < length src
        → k < len
        → locate s.block_base q (at + k) ≢ locate s.block_base r (offset + j)
    apart j k h p e =
        locate_apart o s.block_base oq ne (offset + j) (at + k) (omega arith) (omega arith) (sym e)
