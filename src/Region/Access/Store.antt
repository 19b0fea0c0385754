-- ===== src/Region/Access/Store.antt =====
-- A store writes the bytes of the range, whatever blocks they lie in, and no other byte.
use motoko.Prelude.{
  ℕ, zero, suc, ◌+◌, ◌-◌, ◌%◌, ◌≤◌, ◌<◌, ◌≡◌, ◌≢◌, refl, ap, ◌∙◌, subst, ◌⊎◌, inl, inr, List,
  length, length-take, length-drop, take, take_all, drop, get_or, get_or-take, get_or-drop, arith,
  dec_lt, dec_le, ℕ_discrete, eq→==, ne→==, lt→ltb, ge→ltb, le→leb, gt→leb,
}
use motoko.Prelude.Result.{ok}
use motoko.StableMem.{Bytes, write}
use motoko.StableMem.Laws.{write-outside, write-inside}
use motoko.Region.Meta.{State, block_in_bytes, total_blocks}
use motoko.Region.Grow.{Region}
use motoko.Region.Owns.{Owns}
use motoko.Region.Access.{relative_into_absolute_info, store_blocks, region_store}
use motoko.Region.Access.Locate.{locate, size_in_bytes, locate-add, locate-injective}
use motoko.Region.Access.Load.{check-ok, info_at, block_at, one_block, several_blocks}

-- The first `i` bytes of `src` have been stored at `offset`, and nothing else.
pub record Stored (base : ℕ) (r : Region) (offset : ℕ) (src : List ℕ) (before : Bytes) (i : ℕ)
    (m : Bytes) : Type 0 where
  pub written : (k : ℕ) → k < i → m (locate base r (offset + k)) ≡ get_or src k 0
  pub kept : (a : ℕ) → ((k : ℕ) → k < i → a ≢ locate base r (offset + k)) → m a ≡ before a

module _ {m0 : Bytes} {total : ℕ} {r : Region} (o : Owns m0 total r) (base offset : ℕ)
    (src : List ℕ) (fits : offset + length src ≤ size_in_bytes r) where
  -- One write of `n` bytes within a block.
  Stored-write :
      (i n : ℕ) (m : Bytes)
      → (offset + i) % block_in_bytes + n ≤ block_in_bytes
      → i + n ≤ length src
      → Stored base r offset src m0 i m
      → Stored base r offset src m0
          (i + n)
          (write (locate base r (offset + i)) (take n (drop i src)) m)
  Stored-write i n m within le st = record {
    written = λ k h. elim (dec_lt k i) [
      | yes p ↦
          write-outside _ chunk m _ (
            below k (omega arith) p
              (dec_le (locate base r (offset + i)) (locate base r (offset + k))))
          ∙ st.written k p
      | no p ↦
          ap (write (locate base r (offset + i)) chunk m) (place k (omega arith) h)
          ∙ write-inside (locate base r (offset + i)) chunk m (k - i) 0 (omega (arith, size))
          ∙ get_or-take n (drop i src) (k - i) 0 (omega arith)
          ∙ get_or-drop i src (k - i) 0
          ∙ ap (λ j. get_or src j 0) (omega arith)
    ];
    kept = λ a h.
        write-outside _ chunk m a (away a h (dec_lt a (locate base r (offset + i))))
        ∙ st.kept a (λ k p. h k (omega arith));
  }
    where
      chunk : List ℕ
      chunk = take n (drop i src)

      size : length chunk ≡ n
      size = omega (arith, length-take n (drop i src), length-drop i src)

      place :
          (k : ℕ)
          → i ≤ k
          → k < i + n
          → locate base r (offset + k) ≡ locate base r (offset + i) + (k - i)
      place k h p =
          ap (locate base r) (let e : offset + k ≡ offset + i + (k - i) = omega arith in e)
          ∙ locate-add base r (offset + i) (k - i) (omega arith)

      below :
          (k : ℕ)
          → k < i + n
          → k < i
          → Dec (locate base r (offset + i) ≤ locate base r (offset + k))
          → (locate base r (offset + k) < locate base r (offset + i))
            ⊎ (locate base r (offset + i) + length chunk ≤ locate base r (offset + k))
      below k h p (no q) = inl (omega arith)
      below k h p (yes q) =
          elim (dec_le (locate base r (offset + i) + n) (locate base r (offset + k))) [
            | yes z ↦ inr (omega (arith, size))
            | no z ↦
                let j : ℕ = locate base r (offset + k) - locate base r (offset + i) in
                let same : locate base r (offset + k) ≡ locate base r (offset + (i + j)) =
                  omega (arith, place (i + j) (omega arith) (omega arith)) in
                absurd (
                  omega (
                    arith,
                    locate-injective o base (offset + k) (offset + (i + j)) (omega arith)
                        (omega arith) same,
                  ))
          ]

      away :
          (a : ℕ)
          → ((k : ℕ) → k < i + n → a ≢ locate base r (offset + k))
          → Dec (a < locate base r (offset + i))
          → (a < locate base r (offset + i)) ⊎ (locate base r (offset + i) + length chunk ≤ a)
      away a h (yes q) = inl q
      away a h (no q) = elim (dec_le (locate base r (offset + i) + n) a) [
        | yes z ↦ inr (omega (arith, size))
        | no z ↦
            let j : ℕ = a - locate base r (offset + i) in
            absurd
              (h (i + j) (omega arith) (omega (arith, place (i + j) (omega arith) (omega arith))))
      ]

  -- The loop, from the start of a block on.
  store_blocks-Stored :
      (fuel i : ℕ) (m : Bytes)
      → (i < length src → (offset + i) % block_in_bytes ≡ 0)
      → length src - i < fuel
      → i ≤ length src
      → Stored base r offset src m0 i m
      → (m' : Bytes) × (store_blocks base r offset src fuel i m ≡ ok m')
        × Stored base r offset src m0 (length src) m'
  unfolding store_blocks
  store_blocks-Stored zero i m start h le st = absurd (omega arith)
  store_blocks-Stored (suc fuel) i m start h le st = elim (dec_le (length src) i) [
    | yes done ↦ (
      m,
      rw (le→leb (length src) i done),
      subst (λ n. Stored base r offset src m0 n m) (omega arith) st,
    )
    | no more ↦ elim (dec_lt (length src) (i + (block_in_bytes - (offset + i) % block_in_bytes))) [
      | yes last ↦ (
        write (locate base r (offset + i)) (take (length src - i) (drop i src)) m,
        rw (
          gt→leb (length src) i (omega arith),
          lt→ltb _ _ last,
          lt→ltb i (length src) (omega arith),
          at (omega arith),
        ),
        subst
            (λ n.
              Stored base r offset src m0 n
                (write (locate base r (offset + i)) (take (length src - i) (drop i src)) m))
            (omega arith)
            (Stored-write i (length src - i) m (omega (arith, start (omega arith))) (omega arith)
              st),
      )
      | no full ↦
          let (m', e, st') =
            store_blocks-Stored fuel (i + block_in_bytes) (next m)
              (λ q. omega (arith, start (omega arith))) (omega arith)
              (omega (arith, start (omega arith)))
              (Stored-write i block_in_bytes m (omega (arith, start (omega arith)))
                (omega (arith, start (omega arith))) st) in
          (
            m',
            rw
                (
                  gt→leb (length src) i (omega arith),
                  ge→ltb (length src) (i + (block_in_bytes - (offset + i) % block_in_bytes))
                      (omega arith),
                  at (omega arith),
                )
                e,
            st',
          )
    ]
  ]
    where
      next : Bytes → Bytes
      next m = write (locate base r (offset + i)) (take block_in_bytes (drop i src)) m

      at :
          i < length src
          → (relative_into_absolute_info base r (offset + i)).0 ≡ locate base r (offset + i)
      at lt = info_at o base (offset + i) (omega arith)

-- A store within the size of a region that agrees with the table succeeds, writes each byte of the
-- source at the address of its offset in the region, and changes no other byte of stable memory
-- and nothing else of the state.
pub region_store-Stored :
    (s : State) (r : Region) (offset : ℕ) (src : List ℕ)
    → Owns s.bytes (total_blocks s) r
    → offset < size_in_bytes r
    → offset + length src ≤ size_in_bytes r
    → (m' : Bytes) × (region_store s r offset src ≡ ok (record s { bytes = m' }))
      × Stored s.block_base r offset src s.bytes (length src) m'
unfolding region_store
region_store-Stored s r offset src o lt fits = elim (ℕ_discrete (length src) 0) [
  | yes e ↦ (
    s.bytes,
    rw (check-ok r offset (length src) o.pages lt fits, eq→== (length src) 0 e),
    record { written = λ k h. absurd (omega arith); kept = λ a h. refl },
  )
  | no ne ↦ elim (ℕ_discrete (block offset) (block (offset + length src - 1))) [
    | yes same ↦ (
      write (locate s.block_base r offset) src s.bytes,
      rw
          (
            check-ok r offset (length src) o.pages lt fits,
            ne→== (length src) 0 ne,
            eq→== (block offset) _ same,
          )
          (ap (λ a. ok (record s { bytes = write a src s.bytes }))
            (info_at o s.block_base offset lt)),
      subst
          (λ l.
            Stored s.block_base r offset src s.bytes (length src)
              (write (locate s.block_base r offset) l s.bytes))
          (take_all src)
          (first_write (length src)
            (omega (arith, one_block o s.block_base offset (length src) lt fits ne same))
            (omega arith)),
    )
    | no different ↦
        let (m', e, st) =
          store_blocks-Stored o s.block_base offset src fits (length src + 1) first
            (write (locate s.block_base r offset) (take first src) s.bytes) (λ q. omega arith)
            (omega arith) (several_blocks r offset (length src) ne different)
            (first_write first (omega arith) (several_blocks r offset (length src) ne different)) in
        (
          m',
          rw (
            check-ok r offset (length src) o.pages lt fits,
            ne→== (length src) 0 ne,
            ne→== (block offset) _ different,
            info_at o s.block_base offset lt,
            e,
          ),
          st,
        )
  ]
]
  where
    block : ℕ → ℕ
    block x = block_at r x

    first : ℕ
    first = block_in_bytes - offset % block_in_bytes

    nothing_yet : Stored s.block_base r offset src s.bytes 0 s.bytes
    nothing_yet = record { written = λ k h. absurd (omega arith); kept = λ a h. refl }

    first_write :
        (n : ℕ)
        → offset % block_in_bytes + n ≤ block_in_bytes
        → n ≤ length src
        → Stored s.block_base r offset src s.bytes n
            (write (locate s.block_base r offset) (take n src) s.bytes)
    first_write n within le =
        subst
          (λ k.
            Stored s.block_base r offset src s.bytes k
              (write (locate s.block_base r offset) (take n src) s.bytes))
          (let e : 0 + n ≡ n = omega arith in e)
          (subst
            (λ x.
              Stored s.block_base r offset src s.bytes (0 + n)
                (write (locate s.block_base r x) (take n src) s.bytes))
            (let e : offset + 0 ≡ offset = omega arith in e)
            (Stored-write o s.block_base offset src fits 0 n s.bytes (omega arith) (omega arith)
              nothing_yet))
