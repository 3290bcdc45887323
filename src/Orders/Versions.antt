-- ===== src/Orders/Versions.antt =====
-- Delivery versions and pending requests: what the operations keep unique within an order.
use campusgig_backend.Prelude.{
  ℕ, ◌+◌, ◌≤◌, ◌<◌, ◌==◌, ◌&&◌, if◌then◌else◌, ◌≡◌, List, [], ◌∷◌, Option, arith, inl, inr,
  Bool-cases, Option-cases, false, refl,
}
use campusgig_backend.Db.Types.{Text, is_pending}
use campusgig_backend.Db.Rows.{Order, Delivery, Extension, Message, Db}
use campusgig_backend.Db.Table.{find, put, order_keyed, extension_keyed}
use campusgig_backend.Db.Tx.{Env, ok}
use campusgig_backend.Orders.Deliver.{latest_version, update_delivery_tx}
use campusgig_backend.Orders.Extend.{has_pending_extension, request_extension_tx, new_extension}

-- A delivery of the order stands in the list.
pub data Delivered (i : ℕ) (x : Delivery) : List Delivery → Type 0 where
  here : (xs : List Delivery) → x.order_id ≡ i → Delivered i x (x ∷ xs)
  there : (y : Delivery) (xs : List Delivery) → Delivered i x xs → Delivered i x (y ∷ xs)

pub latest_version-bound :
    (i : ℕ) (x : Delivery) (xs : List Delivery) → Delivered i x xs → x.version ≤ latest_version i xs
unfolding latest_version
latest_version-bound i x _ (here xs e) = ground (arith, e)
latest_version-bound i x _ (there y xs m) = ground (arith, latest_version-bound i x xs m)

-- A further delivery gets a version above those of all deliveries of the order so far.
pub update_delivery-newest :
    (env : Env) (i v : ℕ) (note : Text) (files : List ℕ) (d d' : Db) (o : Order) (x y : Delivery)
    (m : Message)
    → update_delivery_tx env i v note files d ≡ ok ((o, y, m), d')
    → Delivered i x d.deliveries
    → x.version < y.version
unfolding update_delivery_tx
update_delivery-newest env i v note files d d' o x y m h e =
    let bound = latest_version-bound i x d.deliveries e in
    elim (Option-cases (find i d.orders)) [
      | inl f ↦ absurd (ground (arith, f, h))
      | inr (p, f) ↦
          let version : y.version ≡ latest_version i d.deliveries + 1 = ground (arith, f, h) in
          omega (arith, bound, version)
    ]

-- How many extensions of the order await a decision.
pub pending_by : ℕ → Extension → ℕ
pending_by i e = if e.order_id == i && is_pending e.status then 1 else 0

pub pending_extensions : ℕ → List Extension → ℕ
pending_extensions i [] = 0
pending_extensions i (e ∷ es) = pending_by i e + pending_extensions i es

pub has_pending_extension-none :
    (i : ℕ) (es : List Extension) → has_pending_extension i es ≡ false → pending_extensions i es ≡ 0
unfolding has_pending_extension pending_extensions pending_by
has_pending_extension-none i [] h = refl
has_pending_extension-none i (e ∷ es) h = ground (arith, h, has_pending_extension-none i es)

-- Requesting an extension leaves exactly one pending on its order, and the other orders' as they were.
pub request_extension-one_pending :
    (env : Env) (i v hours j : ℕ) (reason : Option Text) (d d' : Db)
    (r : Order × Extension × Message)
    → request_extension_tx env i v hours reason d ≡ ok (r, d')
    → pending_extensions j d'.extensions ≡ (if i == j then 1 else pending_extensions j d.extensions)
unfolding request_extension_tx pending_extensions pending_by
request_extension-one_pending env i v hours j reason d d' r h =
    elim (Option-cases (find i d.orders)) [
      | inl e ↦ absurd (ground (arith, e, h))
      | inr (o, e) ↦ elim (Bool-cases (has_pending_extension i d.extensions)) [
        | inl taken ↦ absurd (ground (arith, e, taken, h))
        | inr free ↦
            let before = has_pending_extension-none i d.extensions free in
            let filed : d'.extensions ≡ new_extension env i v hours reason ∷ d.extensions =
              ground (arith, e, free, h) in
            ground (arith, before, filed)
      ]
    ]

-- Rewriting an extension so that it no longer waits adds no pending one to any order.
pub pending_extensions-put :
    (j : ℕ) (es : List Extension) (e : Extension)
    → is_pending e.status ≡ false
    → pending_extensions j (put e es) ≤ pending_extensions j es
unfolding put pending_extensions pending_by
pending_extensions-put j [] e h = ground arith
pending_extensions-put j (x ∷ es) e h = elim (Bool-cases (x.id == e.id)) [
  | inl hit ↦ rw hit (ground (arith, h))
  | inr miss ↦ rw miss (omega (arith, pending_extensions-put j es e h))
]
