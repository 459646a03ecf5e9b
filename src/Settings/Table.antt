-- ===== src/Settings/Table.antt =====
-- connections.h: the options of connections as a table from keys to numbers.
use redisproxy.Base.{
  ℕ, ◌≡◌, ◌≢◌, ap, ap₂, refl, sym, true, false, Option, none, some, [], ◌∷◌, Bytes, ◌==◌, ==_iff,
  Bool-cases, inl, inr, if◌then◌else◌,
}
use mathlib.Core.Bool.{false≢true}
use mathlib.Core.Path.{subst}
use mathlib.Core.Option.{some-ne-none}
use redisproxy.Base.Int.{ℤ, to_size}
use redisproxy.Error.{ok, unknown}
use redisproxy.Settings.{ConnectionOptions, codes, same, number, load_connections}

-- The number under a key; `none` for a key that is not an option.
unfoldable pub get : Bytes → ConnectionOptions → Option ℕ
get key o =
    if same key (codes "ConnPoolSize")
    then some o.conn_pool_size
    else if same key (codes "ConnSendBufferCount")
    then some o.conn_send_buffer_count
    else if same key (codes "ReadBufferMinSize")
    then some o.read_buffer_min_size
    else if same key (codes "ReadBufferInitSize")
    then some o.read_buffer_init_size
    else none

same_eq : (xs ys : Bytes) → same xs ys ≡ true → xs ≡ ys
same_eq [] [] h = refl
same_eq [] (y ∷ ys) h = absurd (false≢true h)
same_eq (x ∷ xs) [] h = absurd (false≢true h)
same_eq (x ∷ xs) (y ∷ ys) h = elim (Bool-cases (x == y)) [
  | inl e ↦ ap₂ ◌∷◌ ((==_iff x y).0 e) (same_eq xs ys (rw e at h))
  | inr n ↦ absurd (false≢true (rw n at h))
]

-- What `Load` does to the table: the number is under its key, and the others are as they were.
abbrev pub Sets : Bytes → ℕ → ConnectionOptions → ConnectionOptions → Type 0
Sets key n o o' = (get key o' ≡ some n) × ((k : Bytes) → same k key ≡ false → get k o' ≡ get k o)

module _ (stoi : Bytes → Option ℤ) where
  -- What `Load` is to be, in terms of the table.
  abbrev pub Stores : Bytes → Bytes → ConnectionOptions → Type 0
  Stores key value o =
      (get key o ≡ none → load_connections stoi key value o ≡ some (unknown, o))
      × (get key o ≢ none → stoi value ≡ none → load_connections stoi key value o ≡ none)
      × ((n : ℤ)
          → get key o ≢ none
          → stoi value ≡ some n
          → (o' : ConnectionOptions) × (load_connections stoi key value o ≡ some (ok, o'))
            × Sets key (to_size n) o o')

  at_read_buffer_init_size :
      (value : Bytes) (o : ConnectionOptions) → Stores (codes "ReadBufferInitSize") value o
  unfolding load_connections get
  at_read_buffer_init_size value o = (
    λ z. absurd (some-ne-none o.read_buffer_init_size z),
    λ _ s. ap (λ r. number r (λ n. record o { read_buffer_init_size = to_size n })) s,
    λ n _ s. (
      record o { read_buffer_init_size = to_size n },
      ap (λ r. number r (λ m. record o { read_buffer_init_size = to_size m })) s,
      (refl, λ k h. rw (h, get) refl),
    ),
  )

  at_read_buffer_min_size :
      (value : Bytes) (o : ConnectionOptions) → Stores (codes "ReadBufferMinSize") value o
  unfolding load_connections get
  at_read_buffer_min_size value o = (
    λ z. absurd (some-ne-none o.read_buffer_min_size z),
    λ _ s. ap (λ r. number r (λ n. record o { read_buffer_min_size = to_size n })) s,
    λ n _ s. (
      record o { read_buffer_min_size = to_size n },
      ap (λ r. number r (λ m. record o { read_buffer_min_size = to_size m })) s,
      (refl, λ k h. rw (h, get) refl),
    ),
  )

  at_conn_send_buffer_count :
      (value : Bytes) (o : ConnectionOptions) → Stores (codes "ConnSendBufferCount") value o
  unfolding load_connections get
  at_conn_send_buffer_count value o = (
    λ z. absurd (some-ne-none o.conn_send_buffer_count z),
    λ _ s. ap (λ r. number r (λ n. record o { conn_send_buffer_count = to_size n })) s,
    λ n _ s. (
      record o { conn_send_buffer_count = to_size n },
      ap (λ r. number r (λ m. record o { conn_send_buffer_count = to_size m })) s,
      (refl, λ k h. rw (h, get) refl),
    ),
  )

  at_conn_pool_size :
      (value : Bytes) (o : ConnectionOptions) → Stores (codes "ConnPoolSize") value o
  unfolding load_connections get
  at_conn_pool_size value o = (
    λ z. absurd (some-ne-none o.conn_pool_size z),
    λ _ s. ap (λ r. number r (λ n. record o { conn_pool_size = to_size n })) s,
    λ n _ s. (
      record o { conn_pool_size = to_size n },
      ap (λ r. number r (λ m. record o { conn_pool_size = to_size m })) s,
      (refl, λ k h. rw (h, get) refl),
    ),
  )

  otherwise :
      (key value : Bytes) (o : ConnectionOptions)
      → same key (codes "ReadBufferInitSize") ≡ false
      → same key (codes "ReadBufferMinSize") ≡ false
      → same key (codes "ConnSendBufferCount") ≡ false
      → same key (codes "ConnPoolSize") ≡ false
      → Stores key value o
  unfolding load_connections get
  otherwise key value o a b c d =
      let gone : get key o ≡ none = rw (a, b, c, d, get) refl in
      (
        λ _. rw (a, b, c, d, load_connections) refl,
        λ known _. absurd (known gone),
        λ n known _. absurd (known gone),
      )

  -- `ConnectionOptions::Load` keeps a table of numbers: a key that is not an option gives `Unknown` and changes
  -- nothing. For one that is, the exception of `std::stoi` is passed on, or else the number, as a
  -- `std::size_t`, is what the key stands for, and the other keys stand for what they did before.
  pub load_connections-Stores : (key value : Bytes) (o : ConnectionOptions) → Stores key value o
  load_connections-Stores key value o = elim (Bool-cases (same key (codes "ReadBufferInitSize"))) [
    | inl e ↦
        subst (λ k. Stores k value o) (sym (same_eq key (codes "ReadBufferInitSize") e))
          (at_read_buffer_init_size value o)
    | inr a ↦ elim (Bool-cases (same key (codes "ReadBufferMinSize"))) [
      | inl e ↦
          subst (λ k. Stores k value o) (sym (same_eq key (codes "ReadBufferMinSize") e))
            (at_read_buffer_min_size value o)
      | inr b ↦ elim (Bool-cases (same key (codes "ConnSendBufferCount"))) [
        | inl e ↦
            subst (λ k. Stores k value o) (sym (same_eq key (codes "ConnSendBufferCount") e))
              (at_conn_send_buffer_count value o)
        | inr c ↦ elim (Bool-cases (same key (codes "ConnPoolSize"))) [
          | inl e ↦
              subst (λ k. Stores k value o) (sym (same_eq key (codes "ConnPoolSize") e))
                (at_conn_pool_size value o)
          | inr d ↦ otherwise key value o a b c d
        ]
      ]
    ]
  ]
