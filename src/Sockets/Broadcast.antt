-- ===== src/Sockets/Broadcast.antt =====
-- Who gets a broadcast: src/sockets/mod.rs.
use text.Mathlib.Text.{◌==◌ as str_eq}
use text.Mathlib.TextEquality.{eq_iff}
use mathlib.Core.List.{Memᴰ}
use durable_actors.Prelude.{
  ℕ, ◌≡◌, ◌⊎◌, ◌↔◌, refl, sym, inl, inr, String, Bool, true, false, ◌||◌, List, [], ◌∷◌, none, some,
  if◌then◌else◌, All, arith, Bool-cases, Option-cases, &&-both,
}
use durable_actors.Prelude.Maps.{get, string_eq, Unique, get_head, beq-eq}
use durable_actors.Ownership.Types.{ActorKey, actor_eq}
use durable_actors.Sockets.{
  ActorSocketMessage, ActorSocketTagMatch, all, any, broadcast, OutboundMessage,
}
use durable_actors.Sockets.Registry.{RegisteredSocket, SocketRegistry, contains}
use durable_actors.Sockets.Effects.{
  has_any, has_all, matches, no_tags, entry_of, send_where, is_recipient, apply_one,
}
use durable_actors.Sockets.Invariant.{room_Fits}
use durable_actors.Sockets.Counts.{Reaches, Reaches-WellFormed}

contains_iff : (s : String) (strings : List String) → (contains s strings ≡ true) ↔ Memᴰ s strings
contains_iff s strings = (member strings, found strings)
  where
    member : (strings : List String) → contains s strings ≡ true → Memᴰ s strings
    member [] h = absurd (ground arith)
    member (t ∷ strings) h = elim (Bool-cases (str_eq t s)) [
      | inl same ↦ Memᴰ.head (sym ((eq_iff t s).0 same))
      | inr other ↦ Memᴰ.tail (member strings (rw other at h))
    ]

    found : (strings : List String) → Memᴰ s strings → contains s strings ≡ true
    found [] m = elim m [ ]
    found (t ∷ strings) (Memᴰ.head e) = rw ((eq_iff t s).1 (sym e))
    found (t ∷ strings) (Memᴰ.tail m) = ground (arith, found strings m)

-- The tags that a broadcast wants, of those that a connection has.
abbrev pub TagsMatch : ActorSocketTagMatch → List String → List String → Type 0
TagsMatch all wanted tags = All (λ tag. Memᴰ tag tags) wanted
TagsMatch any wanted tags = (tag : String) × Memᴰ tag wanted × Memᴰ tag tags

has_all-All :
    (wanted tags : List String) → (has_all wanted tags ≡ true) ↔ All (λ tag. Memᴰ tag tags) wanted
has_all-All wanted tags = (into wanted, from wanted)
  where
    into : (wanted : List String) → has_all wanted tags ≡ true → All (λ tag. Memᴰ tag tags) wanted
    into [] h = tt
    into (tag ∷ wanted) h =
        let (first, rest) = &&-both _ _ h in ((contains_iff tag tags).0 first, into wanted rest)

    from : (wanted : List String) → All (λ tag. Memᴰ tag tags) wanted → has_all wanted tags ≡ true
    from [] h = refl
    from (tag ∷ wanted) (m, h) = rw ((contains_iff tag tags).1 m) (from wanted h)

has_any-member :
    (wanted tags : List String)
    → (has_any wanted tags ≡ true) ↔ ((tag : String) × Memᴰ tag wanted × Memᴰ tag tags)
has_any-member wanted tags = (into wanted, λ p. from wanted p.0 p.1 p.2)
  where
    into :
        (wanted : List String)
        → has_any wanted tags ≡ true
        → (tag : String) × Memᴰ tag wanted × Memᴰ tag tags
    into [] h = absurd (ground arith)
    into (tag ∷ wanted) h = elim (Bool-cases (contains tag tags)) [
      | inl has ↦ (tag, Memᴰ.head refl, (contains_iff tag tags).0 has)
      | inr hasnt ↦ let (t, m, n) = into wanted (rw hasnt at h) in (t, Memᴰ.tail m, n)
    ]

    from :
        (wanted : List String) (tag : String)
        → Memᴰ tag wanted
        → Memᴰ tag tags
        → has_any wanted tags ≡ true
    from [] tag m n = elim m [ ]
    from (t ∷ wanted) tag (Memᴰ.head e) n = rw (sym e, (contains_iff tag tags).1 n)
    from (t ∷ wanted) tag (Memᴰ.tail m) n = ground (arith, from wanted tag m n)

matches-TagsMatch :
    (m : ActorSocketTagMatch) (wanted tags : List String)
    → (matches m wanted tags ≡ true) ↔ TagsMatch m wanted tags
matches-TagsMatch all wanted tags = has_all-All wanted tags
matches-TagsMatch any wanted tags = has_any-member wanted tags

no_tags_iff : (tags : List String) → (no_tags tags ≡ true) ↔ (tags ≡ [])
no_tags_iff [] = (λ h. refl, λ h. refl)
no_tags_iff (t ∷ tags) = (λ h. cc, λ h. cc)

module _ {Value : Type 0} where
  -- An open connection that is not excepted, with the tags that are wanted, if any are.
  pub record IsRecipient (except : List String) (wanted : List String) (m : ActorSocketTagMatch)
      (entry : RegisteredSocket Value) : Type 0 where
    pub is_open : entry.is_open ≡ true
    pub not_excepted : ¬ Memᴰ entry.connection.id except
    pub tagged : (wanted ≡ []) ⊎ TagsMatch m wanted entry.connection.tags

  is_recipient-IsRecipient :
      (except wanted : List String) (m : ActorSocketTagMatch) (entry : RegisteredSocket Value)
      → (is_recipient except wanted m entry ≡ true) ↔ IsRecipient except wanted m entry
  unfolding is_recipient
  is_recipient-IsRecipient except wanted m entry = (into, from)
    where
      tagged :
          (no_tags wanted || matches m wanted entry.connection.tags) ≡ true
          → (wanted ≡ []) ⊎ TagsMatch m wanted entry.connection.tags
      tagged h = elim (Bool-cases (no_tags wanted)) [
        | inl none_wanted ↦ inl ((no_tags_iff wanted).0 none_wanted)
        | inr some_wanted ↦
            inr ((matches-TagsMatch m wanted entry.connection.tags).0 (rw some_wanted at h))
      ]

      untagged :
          (wanted ≡ []) ⊎ TagsMatch m wanted entry.connection.tags
          → (no_tags wanted || matches m wanted entry.connection.tags) ≡ true
      untagged (inl e) = ground (arith, (no_tags_iff wanted).1 e)
      untagged (inr t) = ground (arith, (matches-TagsMatch m wanted entry.connection.tags).1 t)

      excepted :
          ¬ Memᴰ entry.connection.id except
          → (contains entry.connection.id except ≡ true)
            ⊎ (contains entry.connection.id except ≡ false)
          → contains entry.connection.id except ≡ false
      excepted outside (inl e) = absurd (outside ((contains_iff entry.connection.id except).0 e))
      excepted outside (inr e) = e

      into : is_recipient except wanted m entry ≡ true → IsRecipient except wanted m entry
      into h =
          let (front, tags) = &&-both _ _ h in
          let (is_open, outside) = &&-both _ _ front in
          record {
            is_open = is_open;
            not_excepted = λ n.
                let c = (contains_iff entry.connection.id except).1 n in ground (arith, outside, c);
            tagged = tagged tags;
          }

      from : IsRecipient except wanted m entry → is_recipient except wanted m entry ≡ true
      from r =
          rw (r.is_open, excepted r.not_excepted (Bool-cases (contains entry.connection.id except)))
            (untagged r.tagged)

  module _ (test : RegisteredSocket Value → Bool) (m : OutboundMessage Value) where
    abbrev Sent : List (String × RegisteredSocket Value) → ℕ × OutboundMessage Value → Type 0
    Sent connections s =
        (id : String) × (entry : RegisteredSocket Value) × (get id connections ≡ some entry)
        × (test entry ≡ true)
        × (s ≡ (entry.outbound, m))

    earlier :
        (j : String) (w : RegisteredSocket Value)
        (connections : List (String × RegisteredSocket Value)) (s : ℕ × OutboundMessage Value)
        → get j connections ≡ none
        → Sent connections s
        → Sent ((j, w) ∷ connections) s
    earlier j w connections s fresh (id, entry, found, ok, is) =
        (id, entry, ground (arith, beq-eq j id), ok, is)

    send_where-Sent :
        (connections : List (String × RegisteredSocket Value)) (s : ℕ × OutboundMessage Value)
        → Unique connections
        → Memᴰ s (send_where test m connections)
        → Sent connections s
    send_where-Sent [] s u n = elim n [ ]
    send_where-Sent ((j, w) ∷ connections) s (fresh, u) n =
        go (test w) refl n
          (λ k. earlier j w connections s fresh (send_where-Sent connections s u k))
      where
        go :
            (b : Bool)
            → test w ≡ b
            → Memᴰ s (
                if b
                then (w.outbound, m) ∷ send_where test m connections
                else send_where test m connections)
            → (Memᴰ s (send_where test m connections) → Sent ((j, w) ∷ connections) s)
            → Sent ((j, w) ∷ connections) s
        go true e (Memᴰ.head is) rest = (j, w, get_head j w connections, e, is)
        go true e (Memᴰ.tail k) rest = rest k
        go false e k rest = rest k

    Sent-send_where :
        (connections : List (String × RegisteredSocket Value)) (id : String)
        (entry : RegisteredSocket Value)
        → get id connections ≡ some entry
        → test entry ≡ true
        → Memᴰ (entry.outbound, m) (send_where test m connections)
    Sent-send_where [] id entry found ok = absurd (ground arith)
    Sent-send_where ((j, w) ∷ connections) id entry found ok = elim (Bool-cases (str_eq j id)) [
      | inl same ↦
          let is : w ≡ entry = ground arith in
          let ok' : test w ≡ true = rw is ok in rw ok' (Memᴰ.head (rw is refl))
      | inr other ↦ elim (Bool-cases (test w)) [
        | inl yes_w ↦
            rw yes_w (Memᴰ.tail (Sent-send_where connections id entry (rw other at found) ok))
        | inr no_w ↦ rw no_w (Sent-send_where connections id entry (rw other at found) ok)
      ]
    ]

  -- A broadcast of an actor sends its message to the channels of the actor's connections that are open
  -- and not excepted, and that have all the wanted tags, or any of them, as it asks, if it wants tags at
  -- all; and it sends nothing else. This holds in any registry that a gateway reaches.
  pub broadcast-IsRecipient :
      {r : SocketRegistry Value} (actor : ActorKey) (message : ActorSocketMessage)
      (except wanted : List String) (m : ActorSocketTagMatch) (s : ℕ × OutboundMessage Value)
      → Reaches r
      → (Memᴰ s (apply_one r actor (broadcast message except wanted m)).1) ↔ (
          (id : String) × (entry : RegisteredSocket Value) × (entry_of (get actor r.entries) id
            ≡ some entry)
          × IsRecipient except wanted m entry
          × (s ≡ (entry.outbound, OutboundMessage.message message)))
  unfolding apply_one
  broadcast-IsRecipient {r} actor message except wanted m s reached =
      elim (Option-cases (get actor r.entries)) [
        | inl e ↦ rw e (λ n. elim n [ ], λ p. absurd (ground (arith, p.2)))
        | inr (room, e) ↦
            let fits = (room_Fits r actor room (Reaches-WellFormed reached) e).0 in
            let test = is_recipient except wanted m in
            let sent = OutboundMessage.message message in
            rw e (
              λ n.
                  let (id, entry, found, ok, is) =
                    send_where-Sent test sent room.connections s fits.unique n in
                  (id, entry, found, (is_recipient-IsRecipient except wanted m entry).0 ok, is),
              λ p. rw p.4 (
                  Sent-send_where test sent room.connections p.0 p.1 p.2
                    ((is_recipient-IsRecipient except wanted m p.1).1 p.3)),
            )
      ]
