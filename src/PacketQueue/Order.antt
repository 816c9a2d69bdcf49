-- ===== src/PacketQueue/Order.antt =====
-- The order in which packets leave the queue.
use mavtables.Prelude.{
  ℕ, suc, ◌+◌, ◌^◌, ◌≤◌, ◌<◌, ◌≡◌, ◌≢◌, refl, sym, ap, subst, Bool, true, some, List, [], ◌∷◌, ◌++◌,
  arith, All, All-append, Bool-cases, inl, inr,
}
use mavtables.Prelude.Int.{ℤ, ltb_ℤ, ◌≤ℤ◌}
use mavtables.Prelude.Exception.{ok}
use mavtables.Packet.{Packet}
use mavtables.QueuedPacket
use mavtables.QueuedPacket.{QueuedPacket, lt}
use mavtables.QueuedPacket.Order.{ticket, lt-pushed}
use mavtables.PacketQueue.{PacketQueue, Signal, take_top, get_packet, push}

-- The packets have the tickets of their places in the sequence of all pushes, of which they are the
-- ones from `first` on and before `next` that are still queued.
abbrev pub Numbered : ℕ → List QueuedPacket → ℕ → Type 0
Numbered first [] next = first ≤ next
Numbered first (x ∷ xs) next =
    (n : ℕ) × (first ≤ n) × (x.ticket_number ≡ ticket n) × Numbered (suc n) xs next

-- The oldest packet in the queue was pushed less than 2^63 pushes ago.
abbrev pub IsValid : PacketQueue → Type 0
IsValid q =
    (first : ℕ) × (next : ℕ) × (q.ticket ≡ ticket next)
    × Numbered first q.queue next
    × (next ≤ first + 2 ^ 63)

Numbered-le :
    (first : ℕ) (xs : List QueuedPacket) (next : ℕ) → Numbered first xs next → first ≤ next
Numbered-le first [] next h = h
Numbered-le first (x ∷ xs) next (n, order, same, rest) =
    omega (arith, Numbered-le (suc n) xs next rest)

Numbered-earlier :
    (first earlier : ℕ) (xs : List QueuedPacket) (next : ℕ)
    → earlier ≤ first
    → Numbered first xs next
    → Numbered earlier xs next
Numbered-earlier first earlier [] next order h = omega arith
Numbered-earlier first earlier (x ∷ xs) next order (n, le, same, rest) =
    (n, omega arith, same, rest)

Numbered-push :
    (first : ℕ) (xs : List QueuedPacket) (next : ℕ) (x : QueuedPacket)
    → x.ticket_number ≡ ticket next
    → Numbered first xs next
    → Numbered first (xs ++ x ∷ []) (suc next)
Numbered-push first [] next x same h = (next, h, same, omega arith)
Numbered-push first (y ∷ xs) next x same (n, le, e, rest) =
    (n, le, e, Numbered-push (suc n) xs next x same rest)

Numbered-member :
    (first : ℕ) (pre : List QueuedPacket) (y : QueuedPacket) (post : List QueuedPacket) (next : ℕ)
    → Numbered first (pre ++ y ∷ post) next
    → (m : ℕ) × (first ≤ m) × (m < next) × (y.ticket_number ≡ ticket m)
Numbered-member first [] y post next (n, le, same, rest) =
    (n, le, omega (arith, Numbered-le (suc n) post next rest), same)
Numbered-member first (x ∷ pre) y post next (n, le, same, rest) =
    let (m, later, before, e) = Numbered-member (suc n) pre y post next rest in
    (m, omega arith, before, e)

Numbered-remove :
    (first : ℕ) (pre : List QueuedPacket) (y : QueuedPacket) (post : List QueuedPacket) (next : ℕ)
    → Numbered first (pre ++ y ∷ post) next
    → Numbered first (pre ++ post) next
Numbered-remove first [] y post next (n, le, same, rest) =
    Numbered-earlier (suc n) first post next (omega arith) rest
Numbered-remove first (x ∷ pre) y post next (n, le, same, rest) =
    (n, le, same, Numbered-remove (suc n) pre y post next rest)

-- `y` is the first in the list of those with the highest priority, and `rest` is what is left.
abbrev pub IsNext : List QueuedPacket → QueuedPacket → List QueuedPacket → Type 0
IsNext xs y rest =
    (pre : List QueuedPacket) × (post : List QueuedPacket) × (xs ≡ pre ++ y ∷ post)
    × (rest ≡ pre ++ post)
    × All (λ z. ltb_ℤ z.priority y.priority ≡ true) pre
    × All (λ z. z.priority ≤ℤ y.priority) post

All-le :
    (a b : ℤ) (xs : List QueuedPacket)
    → a ≤ℤ b
    → All (λ z. z.priority ≤ℤ a) xs
    → All (λ z. z.priority ≤ℤ b) xs
All-le a b [] le all = tt
All-le a b (x ∷ xs) le (h, all) = (omega arith, All-le a b xs le all)

All-lt :
    (a b : ℤ) (xs : List QueuedPacket)
    → a ≤ℤ b
    → All (λ z. ltb_ℤ z.priority a ≡ true) xs
    → All (λ z. z.priority ≤ℤ b) xs
All-lt a b [] le all = tt
All-lt a b (x ∷ xs) le (h, all) = (ground arith, All-lt a b xs le all)

take_top-IsNext :
    (first next : ℕ) (x : QueuedPacket) (xs : List QueuedPacket)
    → Numbered first (x ∷ xs) next
    → next ≤ first + 2 ^ 63
    → (y : QueuedPacket) × (rest : List QueuedPacket) × (take_top (x ∷ xs) ≡ some (y, rest))
      × IsNext (x ∷ xs) y rest
unfolding take_top
take_top-IsNext first next x [] numbered near = (x, [], refl, ([], [], refl, refl, tt, tt))
take_top-IsNext first next x (x' ∷ xs) (n, le, same, numbered) near =
    let (y, rest, top, (pre, post, split, left, higher, lower)) =
      take_top-IsNext (suc n) next x' xs numbered (omega arith) in
    let (m, later, before, e) =
      Numbered-member (suc n) pre y post next
        (subst (λ l. Numbered (suc n) l next) split numbered) in
    let (older, newer, mirrored, mirrored_back) =
      lt-pushed x y n m same e (omega arith) (omega arith) in
    elim (Bool-cases (ltb_ℤ x.priority y.priority)) [
      | inl less ↦ (
        y,
        x ∷ rest,
        rw (top, older, less),
        (x ∷ pre, post, ap (λ l. x ∷ l) split, ap (λ l. x ∷ l) left, (less, higher), lower),
      )
      | inr not_less ↦
          let le_x : y.priority ≤ℤ x.priority = ground arith in
          (
            x,
            x' ∷ xs,
            rw (top, older, not_less),
            (
              [],
              x' ∷ xs,
              refl,
              refl,
              tt,
              subst (λ l. All (λ z. z.priority ≤ℤ x.priority) l) (sym split)
                  (All-append (λ z. z.priority ≤ℤ x.priority) pre (y ∷ post)
                    (All-lt y.priority x.priority pre le_x higher)
                    (le_x, All-le y.priority x.priority post le_x lower)),
            ),
          )
    ]

-- Of a running queue that holds packets, `get_packet_` returns the one with the highest priority, of
-- several the one that was pushed first, and takes this packet alone out of the queue. It holds while
-- the oldest packet was pushed less than 2^63 pushes ago, and then it holds for what is left.
pub get_packet-IsNext :
    (q : PacketQueue)
    → IsValid q
    → q.running ≡ true
    → q.queue ≢ []
    → (y : QueuedPacket) × (rest : List QueuedPacket) × (get_packet q
        ≡ (some y.packet, record q { queue = rest }))
      × IsNext q.queue y rest
      × IsValid (record q { queue = rest })
get_packet-IsNext q valid running some_packet =
    fields q.has_callback q.ticket q.running q.queue valid running some_packet
  where
    fields :
        (b : Bool) (t : ℕ) (r : Bool) (xs : List QueuedPacket)
        → IsValid (record { has_callback = b; ticket = t; running = r; queue = xs })
        → r ≡ true
        → xs ≢ []
        → (y : QueuedPacket) × (rest : List QueuedPacket) × (get_packet
              (record { has_callback = b; ticket = t; running = r; queue = xs })
            ≡ (some y.packet, record { has_callback = b; ticket = t; running = r; queue = rest }))
          × IsNext xs y rest
          × IsValid (record { has_callback = b; ticket = t; running = r; queue = rest })
    fields b t r [] valid running some_packet = absurd (some_packet refl)
    fields b t r (x ∷ xs) (first, next, same, numbered, near) running some_packet =
        let (y, rest, top, (pre, post, split, left, higher, lower)) =
          take_top-IsNext first next x xs numbered near in
        (
          y,
          rest,
          unfold get_packet in rw (running, top),
          (pre, post, split, left, higher, lower),
          (
            first,
            next,
            same,
            subst (λ l. Numbered first l next) (sym left)
                (Numbered-remove first pre y post next
                  (subst (λ l. Numbered first l next) split numbered)),
            near,
          ),
        )

-- `push` puts a packet behind those that are queued and gives it the next ticket. If the oldest
-- queued packet was pushed less than 2^63 - 1 pushes ago, the order holds for the new queue too.
pub push-IsValid :
    (q : PacketQueue) (packet : Packet) (priority : ℤ) (first next : ℕ)
    → q.ticket ≡ ticket next
    → Numbered first q.queue next
    → next < first + 2 ^ 63
    → (q' : PacketQueue) × (signals : List Signal) × (push (some packet) priority q
        ≡ ok (q', signals))
      × (q'.queue
          ≡ q.queue
            ++ record { packet = packet; priority = priority; ticket_number = q.ticket } ∷ [])
      × (q'.running ≡ q.running)
      × IsValid q'
unfolding push QueuedPacket.make
push-IsValid q packet priority first next same numbered near = (
  _,
  _,
  refl,
  refl,
  refl,
  (first, suc next, omega arith, Numbered-push first q.queue next _ same numbered, omega arith),
)
