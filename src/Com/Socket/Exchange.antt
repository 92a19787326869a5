-- ===== src/Com/Socket/Exchange.antt =====
-- What comes over a socket is what was sent, in order.
use server_game.Base.{
  Bool, List, [], ◌∷◌, ◌++◌, map, ◌≡◌, refl, ap, sym, ◌∙◌, subst, All, ◌⊎◌, inl, inr, if◌then◌else◌,
}
use mathlib.Core.List.{append-nil, append_assoc, map-append, Sublistᴰ}
use mathlib.Core.List.Sublistᴰ
use server_game.Base.Text.{Text}
use server_game.Com.RawMessage
use server_game.Com.RawMessage.{RawMessage, space}
use server_game.Com.RawMessage.RoundTrip.{Without, receive-send}
use server_game.Com.Socket.{
  Received, recv_error, nothing, came, Sent, accepted, send_error, other_error, Zmq, receive, send,
  receive_string, send_string, given, settled,
}

-- Whether a pair of sockets keeps each text that it accepted, or may drop one on the way, as a
-- publisher does for a subscriber that is slow or not there.
pub data Pattern : Type 0 where
  keeping dropping : Pattern

-- The first list is the second one, or what is left of it in its order.
abbrev pub Follows {ℓ} : {A : Type ℓ} → Pattern → List A → List A → Type ℓ
Follows keeping xs ys = xs ≡ ys
Follows dropping xs ys = Sublistᴰ xs ys

-- What recv may do with the texts on the way: it takes the first, or the first that is not dropped,
-- or none.
abbrev pub Takes : Pattern → Received → List Text → List Text → Type 0
Takes p recv_error before after = after ≡ before
Takes p nothing before after = after ≡ before
Takes keeping (came text) before after = before ≡ text ∷ after
Takes dropping (came text) before after = (lost : List Text) × (before ≡ lost ++ text ∷ after)

-- A text that is accepted comes behind those that are on the way, unless it is dropped at once.
abbrev pub Puts : Pattern → Text → Sent → List Text → List Text → Type 0
Puts keeping text accepted before after = after ≡ before ++ text ∷ []
Puts dropping text accepted before after = (after ≡ before ++ text ∷ []) ⊎ (after ≡ before)
Puts p text send_error before after = after ≡ before
Puts p text other_error before after = after ≡ before

-- What is taken for granted of one pair of sockets of ZeroMQ: texts are whole and stay in their
-- order, and a call that fails leaves them alone.
pub record Ordered {ℓ} {W : Type ℓ} (pattern : Pattern) (zmq : Zmq W) : Type ℓ where
  pub on_the_way : W → List Text
  pub recv_takes :
      (blocking : Bool) (w : W)
      → Takes pattern (zmq.recv blocking w).0 (on_the_way w) (on_the_way (zmq.recv blocking w).1)
  pub send_puts :
      (text : Text) (w : W)
      → Puts pattern text (zmq.send text w).0 (on_the_way w) (on_the_way (zmq.send text w).1)

-- What the program does with the two ends: it sends a message, or it tries to receive one.
pub data Action : Type 0 where
  sends : RawMessage → Action
  receives : Bool → RawMessage → Action

-- A routing id and a type without a space, as the program's messages have.
abbrev pub Spaceless : Action → Type 0
Spaceless (sends m) = Without space m.routing_id × Without space m.type
Spaceless (receives blocking old) = Unit

Sublistᴰ-refl {ℓ} : {A : Type ℓ} (xs : List A) → Sublistᴰ xs xs
Sublistᴰ-refl [] = Sublistᴰ.slnil
Sublistᴰ-refl (x ∷ xs) = Sublistᴰ.cons-cons refl (Sublistᴰ-refl xs)

module _ {ℓ} {A : Type ℓ} where
  Follows-eq : (p : Pattern) (xs ys : List A) → xs ≡ ys → Follows p xs ys
  Follows-eq keeping xs ys e = e
  Follows-eq dropping xs ys e = subst (λ t. Sublistᴰ xs t) e (Sublistᴰ-refl xs)

  Follows-trans :
      (p : Pattern) (xs ys zs : List A) → Follows p xs ys → Follows p ys zs → Follows p xs zs
  Follows-trans keeping xs ys zs e f = e ∙ f
  Follows-trans dropping xs ys zs e f = Sublistᴰ.trans e f

  Follows-left : (p : Pattern) (l xs ys : List A) → Follows p xs ys → Follows p (l ++ xs) (l ++ ys)
  Follows-left keeping l xs ys e = ap (λ t. l ++ t) e
  Follows-left dropping l xs ys e = Sublistᴰ.append (Sublistᴰ-refl l) e

  Follows-right : (p : Pattern) (l xs ys : List A) → Follows p xs ys → Follows p (xs ++ l) (ys ++ l)
  Follows-right keeping l xs ys e = ap (λ t. t ++ l) e
  Follows-right dropping l xs ys e = Sublistᴰ.append e (Sublistᴰ-refl l)

  -- Those in front may be dropped.
  Follows-lost : (lost xs : List A) → Sublistᴰ xs (lost ++ xs)
  Follows-lost [] xs = Sublistᴰ-refl xs
  Follows-lost (x ∷ lost) xs = Sublistᴰ.cons (Follows-lost lost xs)

module _ {ℓ} {W : Type ℓ} (zmq : Zmq W) where
  abbrev after : Action → W → W
  after (sends m) w = send zmq m w
  after (receives blocking old) w = (receive zmq blocking old w).1

  -- The message of a call that says it received one.
  abbrev told : Bool × RawMessage → List RawMessage
  told (received, m) = if received then m ∷ [] else []

  abbrev out : Action → W → List RawMessage
  out (sends m) w = []
  out (receives blocking old) w = told (receive zmq blocking old w).0

  abbrev kept : RawMessage → Sent → List RawMessage
  kept m accepted = m ∷ []
  kept m send_error = []
  kept m other_error = []

  -- The message that ZeroMQ accepts.
  abbrev inward : Action → W → List RawMessage
  inward (sends m) w = kept m (zmq.send (RawMessage.send m) w).0
  inward (receives blocking old) w = []

  unfoldable pub finally : List Action → W → W
  finally [] w = w
  finally (a ∷ later) w = finally later (after a w)

  unfoldable pub received : List Action → W → List RawMessage
  received [] w = []
  received (a ∷ later) w = out a w ++ received later (after a w)

  unfoldable pub taken : List Action → W → List RawMessage
  taken [] w = []
  taken (a ∷ later) w = inward a w ++ taken later (after a w)

  -- The messages of texts.
  abbrev read : List Text → List RawMessage
  read = map RawMessage.receive

  one_received :
      (pattern : Pattern) (r : Received) (old : RawMessage) (before later : List Text)
      → Takes pattern r before later
      → (w : W)
      → let ((got, text), w') = given r [] w in
        Follows pattern
          (told (got, if got then RawMessage.receive text else old) ++ read later)
          (read before ++ [])
  one_received p recv_error old before later e w =
      Follows-eq p _ _ (rw (e, append-nil (read before)) refl)
  one_received p nothing old before later e w =
      Follows-eq p _ _ (rw (e, append-nil (read before)) refl)
  one_received keeping (came text) old before later e w =
      rw (e, append-nil (read (text ∷ later))) refl
  one_received dropping (came text) old before later (lost, e) w =
      rw
        (
          e,
          append-nil (read (lost ++ text ∷ later)),
          map-append RawMessage.receive lost (text ∷ later),
        )
        (Follows-lost (read lost) (read (text ∷ later)))

  one_sent :
      (pattern : Pattern) (m : RawMessage) (s : Sent) (before later : List Text)
      → RawMessage.receive (RawMessage.send m) ≡ m
      → Puts pattern (RawMessage.send m) s before later
      → Follows pattern (read later) (read before ++ kept m s)
  one_sent keeping m accepted before later h e =
      rw (e, map-append RawMessage.receive before (RawMessage.send m ∷ []), h) refl
  one_sent dropping m accepted before later h (inl e) =
      Follows-eq dropping _ _
        (rw (e, map-append RawMessage.receive before (RawMessage.send m ∷ []), h) refl)
  one_sent dropping m accepted before later h (inr e) = rw e (
      subst (λ t. Sublistᴰ t (read before ++ m ∷ [])) (append-nil (read before))
        (Sublistᴰ.append (Sublistᴰ-refl (read before)) (Sublistᴰ.cons Sublistᴰ.slnil)))
  one_sent p m send_error before later h e =
      Follows-eq p _ _ (rw (e, append-nil (read before)) refl)
  one_sent p m other_error before later h e =
      Follows-eq p _ _ (rw (e, append-nil (read before)) refl)

  given-after : (r : Received) (w : W) → (given r [] w).1 ≡ w
  given-after recv_error w = refl
  given-after nothing w = refl
  given-after (came text) w = refl

  settled-after : (s : Sent) (w : W) → settled s w ≡ w
  settled-after accepted w = refl
  settled-after send_error w = refl
  settled-after other_error w = refl

  one :
      (pattern : Pattern) (o : Ordered pattern zmq) (a : Action) (w : W)
      → Spaceless a
      → Follows pattern
          (out a w ++ read (o.on_the_way (after a w)))
          (read (o.on_the_way w) ++ inward a w)
  unfolding receive receive_string send send_string
  one pattern o (sends m) w h =
      let (s, w') = zmq.send (RawMessage.send m) w in
      rw (settled-after s w') (
        one_sent pattern m s (o.on_the_way w) (o.on_the_way w') (receive-send m h.0 h.1)
          (o.send_puts (RawMessage.send m) w))
  one pattern o (receives blocking old) w h =
      let (r, w') = zmq.recv blocking w in
      rw (given-after r w')
        (one_received pattern r old (o.on_the_way w) (o.on_the_way w') (o.recv_takes blocking w) w')

  module _ (pattern : Pattern) (o : Ordered pattern zmq) where
    -- The messages that are on the way.
    abbrev pub pending : W → List RawMessage
    pending w = map RawMessage.receive (o.on_the_way w)

    -- Whatever is sent and received, with whatever failures, of messages whose routing ids and types
    -- have no space in them. It is taken for granted of the pair of sockets that texts stay whole and
    -- in their order, that a call that fails changes nothing, and, of sockets that keep their texts,
    -- that none of those accepted is dropped. Then what was received, and behind it what is on the
    -- way still, is what was on the way, and behind it the messages that ZeroMQ accepted. Over
    -- sockets that may drop texts, as a publisher does, it is what is left of that, in its order: no
    -- message is changed, comes twice or out of its order.
    pub exchanged :
        (actions : List Action) (w : W)
        → All Spaceless actions
        → Follows pattern
            (received actions w ++ pending (finally actions w))
            (pending w ++ taken actions w)
    unfolding received taken finally
    exchanged [] w h = Follows-eq pattern _ _ (sym (append-nil (pending w)))
    exchanged (a ∷ later) w (h, hs) =
        let w' = after a w in
        subst (λ t. Follows pattern t (pending w ++ (inward a w ++ taken later w')))
          (sym (append_assoc (out a w) (received later w') (pending (finally later w'))))
          (Follows-trans pattern _ _ _ (Follows-left pattern (out a w) _ _ (exchanged later w' hs))
            (subst (λ t. Follows pattern t (pending w ++ (inward a w ++ taken later w')))
              (append_assoc (out a w) (pending w') (taken later w'))
              (subst (λ t. Follows pattern ((out a w ++ pending w') ++ taken later w') t)
                (append_assoc (pending w) (inward a w) (taken later w'))
                (Follows-right pattern (taken later w') _ _ (one pattern o a w h)))))
