-- ===== src/Graph/SlotMap/Sort.antt =====
-- The counting sort of `pose_graph_slot_map`: the buckets hold every id once.
use po_se_memory_wiping.Prelude.{
  ℕ, zero, suc, ◌+◌, ◌≤◌, ◌<◌, ◌≡◌, ◌≢◌, refl, sym, ap, ◌∙◌, inl, inr, Bool, true, false, ◌==◌,
  if◌then◌else◌, Bool-cases, update, update_self, update_ne, arith,
}
use native.Mathlib.Decide.{dec_lt, dec_le}
use po_se_memory_wiping.Graph.SlotMap.{count_keys, prefix_sums, copy_to, place, counting_sort}

module _ (key : ℕ → ℕ) where
  -- How many of the first `n` ids have key `k`.
  abbrev pub with_key : ℕ → ℕ → ℕ
  with_key k zero = 0
  with_key k (suc n) = with_key k n + (if key n == k then 1 else 0)

  -- How many of the first `n` ids have a key below `k`.
  abbrev pub with_less : ℕ → ℕ → ℕ
  with_less zero n = 0
  with_less (suc k) n = with_less k n + with_key k n

  with_key-suc : (k n : ℕ) → with_key k (n + 1) ≡ with_key k n + (if key n == k then 1 else 0)
  with_key-suc k n = let same : n + 1 ≡ suc n = omega arith in ap (with_key k) same

  pub with_less-suc : (k n : ℕ) → with_less (k + 1) n ≡ with_less k n + with_key k n
  with_less-suc k n = let same : k + 1 ≡ suc k = omega arith in ap (λ j. with_less j n) same

  with_key_mono : (k m n : ℕ) → m ≤ n → with_key k m ≤ with_key k n
  with_key_mono k m zero le =
      let same : m ≡ zero = omega arith in omega (arith, ap (with_key k) same)
  with_key_mono k m (suc n) le = elim (dec_le m n) [
    | yes le' ↦ omega (arith, with_key_mono k m n le')
    | no gt ↦ let same : m ≡ suc n = omega arith in omega (arith, ap (with_key k) same)
  ]

  with_less_mono : (n j k : ℕ) → j ≤ k → with_less j n ≤ with_less k n
  with_less_mono n j zero le =
      let same : j ≡ zero = omega arith in omega (arith, ap (λ i. with_less i n) same)
  with_less_mono n j (suc k) le = elim (dec_le j k) [
    | yes le' ↦ omega (arith, with_less_mono n j k le')
    | no gt ↦ let same : j ≡ suc k = omega arith in omega (arith, ap (λ i. with_less i n) same)
  ]

  -- An id counts among those of its key that come later.
  pub with_key-lt : (id n : ℕ) → id < n → with_key (key id) id < with_key (key id) n
  with_key-lt id n lt =
      let own : with_key (key id) (suc id) ≡ with_key (key id) id + 1 =
        ap (λ (b : Bool). with_key (key id) id + (if b then 1 else 0)) (self (key id)) in
      omega (arith, own, with_key_mono (key id) (suc id) n (omega arith))
    where
      self : (k : ℕ) → (k == k) ≡ true
      self k = ground arith

  -- The id of a rank.
  pub of_rank :
      (k j n : ℕ) → j < with_key k n → (id : ℕ) × (id < n) × (key id ≡ k) × (with_key k id ≡ j)
  of_rank k j zero lt = absurd (omega arith)
  of_rank k j (suc n) lt = elim (dec_lt j (with_key k n)) [
    | yes lt' ↦ let found = of_rank k j n lt' in (found.0, omega (arith, found.1), found.2, found.3)
    | no ge ↦ elim (Bool-cases (key n == k)) [
      | inl e ↦
          let added : ◌≡◌ {A = ℕ} (if key n == k then 1 else 0) 1 = rw e refl in
          (n, omega arith, same_key e, omega (arith, added, lt))
      | inr e ↦
          let added : ◌≡◌ {A = ℕ} (if key n == k then 1 else 0) 0 = rw e refl in
          absurd (ge (omega (arith, added, lt)))
    ]
  ]
    where
      same_key : (key n == k) ≡ true → key n ≡ k
      same_key e = ground arith

  -- The loops, from the place that each has reached.
  count_keys_lem :
      (n id : ℕ) (start : ℕ → ℕ) (k : ℕ)
      → (count_keys key n id start (k + 1) + with_key k id ≡ start (k + 1) + with_key k (id + n))
        × (count_keys key n id start 0 ≡ start 0)
  unfolding count_keys
  count_keys_lem zero id start k =
      let same : id ≡ id + zero = omega arith in (omega (arith, ap (with_key k) same), refl)
  count_keys_lem (suc n) id start k =
      let rest = count_keys_lem n (id + 1) (update start (key id + 1) (start (key id + 1) + 1)) k in
      let shift : id + 1 + n ≡ id + suc n = omega arith in
      (
        elim (Bool-cases (key id == k)) [
          | inl e ↦
              let added : ◌≡◌ {A = ℕ} (if key id == k then 1 else 0) 1 = rw e refl in
              let same : key id ≡ k = ground arith in
              let here : update start (key id + 1) (start (key id + 1) + 1) (k + 1)
                  ≡ start (k + 1) + 1 =
                rw same (update_self start (k + 1) (start (k + 1) + 1)) in
              omega (arith, rest.0, with_key-suc k id, added, here, ap (with_key k) shift)
          | inr e ↦
              let added : ◌≡◌ {A = ℕ} (if key id == k then 1 else 0) 0 = rw e refl in
              let other : k ≢ key id = ground arith in
              let here : update start (key id + 1) (start (key id + 1) + 1) (k + 1)
                  ≡ start (k + 1) =
                update_ne start (key id + 1) (k + 1) (start (key id + 1) + 1)
                  (λ q. other (omega arith)) in
              omega (arith, rest.0, with_key-suc k id, added, here, ap (with_key k) shift)
        ],
        rest.1 ∙ update_ne start (key id + 1) 0 (start (key id + 1) + 1) (λ q. omega arith),
      )

  prefix_sums_lem :
      (count n i : ℕ) (start : ℕ → ℕ)
      → ((j : ℕ) → j ≤ i → start j ≡ with_less j count)
      → ((j : ℕ) → i ≤ j → start (j + 1) ≡ with_key j count)
      → (j : ℕ) → j ≤ i + n
      → prefix_sums n i start j ≡ with_less j count
  unfolding prefix_sums
  prefix_sums_lem count zero i start summed counted j le = summed j (omega arith)
  prefix_sums_lem count (suc n) i start summed counted j le =
      prefix_sums_lem count n (i + 1) (update start (i + 1) (start (i + 1) + start i))
        (λ j' le'. elim (Bool-cases (j' == i + 1)) [
          | inl e ↦
              let same : j' ≡ i + 1 = ground arith in
              rw same (
                update_self start (i + 1) (start (i + 1) + start i)
                ∙ omega
                    (arith, summed i (omega arith), counted i (omega arith), with_less-suc i count))
          | inr e ↦
              let other : j' ≢ i + 1 = ground arith in
              update_ne start (i + 1) j' (start (i + 1) + start i) other
              ∙ summed j' (omega (arith, other))
        ])
        (λ j' le'.
          update_ne start (i + 1) (j' + 1) (start (i + 1) + start i) (λ q. omega arith)
          ∙ counted j' (omega arith))
        j (omega arith)

  copy_to_lem :
      (n i : ℕ) (start cur : ℕ → ℕ)
      → ((j : ℕ) → j < i → cur j ≡ start j)
      → (j : ℕ) → j < i + n
      → copy_to n i start cur j ≡ start j
  unfolding copy_to
  copy_to_lem zero i start cur copied j lt = copied j (omega arith)
  copy_to_lem (suc n) i start cur copied j lt =
      copy_to_lem n (i + 1) start (update cur i (start i))
        (λ j' lt'. elim (Bool-cases (j' == i)) [
          | inl e ↦ let same : j' ≡ i = ground arith in rw same (update_self cur i (start i))
          | inr e ↦
              let other : j' ≢ i = ground arith in
              update_ne cur i j' (start i) other ∙ copied j' (omega (arith, other))
        ])
        j (omega arith)

  module _ (count : ℕ) where
    -- The place of an id in the order.
    abbrev pub place_of : ℕ → ℕ
    place_of id = with_less (key id) count + with_key (key id) id

    lower_key : (a b : ℕ) → a < count → key a < key b → place_of a < place_of b
    lower_key a b lt less =
        omega
          (arith, with_key-lt a count lt, with_less_mono count (suc (key a)) (key b) (omega arith))

    earlier_id : (a b : ℕ) → key a ≡ key b → a < b → place_of a < place_of b
    earlier_id a b same less = omega (
      arith,
      with_key-lt a b less,
      ap (λ k. with_less k count) same,
      ap (λ k. with_key k b) same,
      ap (λ k. with_key k a) same,
    )

    place_of-apart : (a b : ℕ) → a < count → b < count → a ≢ b → place_of a ≢ place_of b
    place_of-apart a b la lb ne same = elim (dec_lt (key a) (key b)) [
      | yes less ↦ omega (arith, lower_key a b la less)
      | no not_less ↦ elim (dec_lt (key b) (key a)) [
        | yes less ↦ omega (arith, lower_key b a lb less)
        | no not_less' ↦ elim (dec_lt a b) [
          | yes less ↦ omega (arith, earlier_id a b (omega arith) less)
          | no not_less'' ↦ omega (arith, earlier_id b a (omega arith) (omega (arith, ne)))
        ]
      ]
    ]

    pub place_lem :
        (ln n id : ℕ) (cur order : ℕ → ℕ)
        → ((i : ℕ) → i < count → key i < ln)
        → id + n ≡ count
        → ((k : ℕ) → k < ln → cur k ≡ with_less k count + with_key k id)
        → ((i : ℕ) → i < id → order (place_of i) ≡ i)
        → (i : ℕ) → i < count
        → place key n id cur order (place_of i) ≡ i
    unfolding place
    place_lem ln zero id cur order keys at cursors placed i lt = placed i (omega arith)
    place_lem ln (suc n) id cur order keys at cursors placed i lt =
        place_lem ln n (id + 1) (update cur (key id) (cur (key id) + 1))
          (update order (cur (key id)) id) keys (omega arith)
          (λ k lt'. elim (Bool-cases (k == key id)) [
            | inl e ↦
                let same : k ≡ key id = ground arith in
                let added : ◌≡◌ {A = ℕ} (if key id == key id then 1 else 0) 1 =
                  rw (self (key id)) refl in
                rw same (
                  update_self cur (key id) (cur (key id) + 1)
                  ∙ omega (arith, here, with_key-suc (key id) id, added))
            | inr e ↦
                let other : k ≢ key id = ground arith in
                let added : ◌≡◌ {A = ℕ} (if key id == k then 1 else 0) 0 =
                  rw (not_equal k other) refl in
                update_ne cur (key id) k (cur (key id) + 1) other
                ∙ omega (arith, cursors k lt', with_key-suc k id, added)
          ])
          (λ j lt'. elim (Bool-cases (j == id)) [
            | inl e ↦
                let same : j ≡ id = ground arith in
                rw same (
                  ap (update order (cur (key id)) id) (sym here)
                  ∙ update_self order (cur (key id)) id)
            | inr e ↦
                let other : j ≢ id = ground arith in
                update_ne order (cur (key id)) (place_of j) id
                  (λ q. place_of-apart j id (omega arith) (omega arith) other (q ∙ here))
                ∙ placed j (omega (arith, other))
          ])
          i lt
      where
        here : cur (key id) ≡ place_of id
        here = cursors (key id) (keys id (omega arith))

        self : (k : ℕ) → (k == k) ≡ true
        self k = ground arith

        not_equal : (k : ℕ) → k ≢ key id → (key id == k) ≡ false
        not_equal k other = ground arith

    -- The bucket of key `k` starts after the ids with lower keys, and every id stands at its place.
    pub counting_sort_lem :
        (ln : ℕ) (raw : ℕ → ℕ)
        → ((i : ℕ) → i < count → key i < ln)
        → ((k : ℕ) → k ≤ ln → (counting_sort key count ln raw).start k ≡ with_less k count)
          × ((i : ℕ) → i < count → (counting_sort key count ln raw).order (place_of i) ≡ i)
    unfolding counting_sort
    counting_sort_lem ln raw keys = (
      λ k le. starts k le,
      place_lem ln count 0 (copy_to ln 0 (prefix_sums ln 0 counts) raw) raw keys (omega arith)
          (λ k lt.
            copy_to_lem ln 0 (prefix_sums ln 0 counts) raw (λ j lt'. absurd (omega arith)) k
              (omega arith)
            ∙ starts k (omega arith)
            ∙ omega arith)
          (λ i lt. absurd (omega arith)),
    )
      where
        counts : ℕ → ℕ
        counts = count_keys key count 0 (λ i. 0)

        starts : (k : ℕ) → k ≤ ln → prefix_sums ln 0 counts k ≡ with_less k count
        starts k le =
            prefix_sums_lem count ln 0 counts
              (λ j le'.
                let none_yet : j ≡ 0 = omega arith in
                rw none_yet (count_keys_lem count 0 (λ i. 0) 0).1)
              (λ j le'.
                let all : 0 + count ≡ count = omega arith in
                omega (arith, (count_keys_lem count 0 (λ i. 0) j).0, ap (with_key j) all))
              k (omega arith)

  -- Two ids of the same key and rank are the same.
  pub rank_unique : (a b : ℕ) → key a ≡ key b → with_key (key a) a ≡ with_key (key b) b → a ≡ b
  rank_unique a b same ranks = elim (dec_lt a b) [
    | yes less ↦ absurd (omega (arith, with_key-lt a b less, ap (λ k. with_key k b) same, ranks))
    | no not_less ↦ elim (dec_lt b a) [
      | yes less ↦ absurd (omega (arith, with_key-lt b a less, ap (λ k. with_key k a) same, ranks))
      | no not_less' ↦ omega arith
    ]
  ]
