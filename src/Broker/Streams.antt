-- ===== src/Broker/Streams.antt =====
-- What one connection reads from Broker over any history of publications and of reads by all
-- connections, from its Subscribe to its Unsubscribe.
use trace_runtime.Prelude.{
  string_eq, ◌+◌, ◌≤◌, String, ◌≡◌, refl, sym, ◌∙◌, ap, Bool, true, false, Option, none, some, List,
  [], ◌∷◌, ◌++◌, ◌==◌, length, length-append, arith, ltb, if◌then◌else◌, ◌⊎◌, Bool-cases, inl, inr,
  eq_iff, eq_refl,
}
use mathlib.Core.List.{append_assoc, append-nil}
use trace_runtime.Prelude.Assoc.{get, put, get-put}
use trace_runtime.Broker.{Broker, offer, publish, next, subscribe}
use trace_runtime.Broker.Delivery.{get-fan_out}

-- `Part xs ys`: xs is ys with some elements left out.
pub data Part {A : Type 0} : List A → List A → Type 0 where
  stop : Part [] []
  keep : (x : A) {xs ys : List A} → Part xs ys → Part (x ∷ xs) (x ∷ ys)
  skip : (x : A) {xs ys : List A} → Part xs ys → Part xs (x ∷ ys)

module _ {A : Type 0} where
  Part-self : (xs : List A) → Part xs xs
  Part-self [] = stop
  Part-self (x ∷ xs) = keep x (Part-self xs)

  Part-keep : (x : A) {xs ys : List A} → Part xs ys → Part (xs ++ x ∷ []) (ys ++ x ∷ [])
  Part-keep x stop = keep x stop
  Part-keep x (keep y p) = keep y (Part-keep x p)
  Part-keep x (skip y p) = skip y (Part-keep x p)

  Part-skip : (x : A) {xs ys : List A} → Part xs ys → Part xs (ys ++ x ∷ [])
  Part-skip x stop = skip x stop
  Part-skip x (keep y p) = keep y (Part-skip x p)
  Part-skip x (skip y p) = skip y (Part-skip x p)

pub data Act (M : Type 0) : Type 0 where
  announce : M → Act M
  read : String → Act M

-- The reads of one connection, all publications, and those of them that found fewer than sixteen messages in its buffer.
pub record Flow (M : Type 0) : Type 0 where
  pub read_so_far : List M
  pub published : List M
  pub admitted : List M
  pub broker : Broker M

module _ {M : Type 0} where
  abbrev got : Bool → Option M → List M
  got true (some msg) = msg ∷ []
  got _ _ = []

  abbrev with_room : M → Option (List M) → List M
  with_room msg none = []
  with_room msg (some ch) = if ltb (length ch) 16 then msg ∷ [] else []

  act : String → Act M → Flow M → Flow M
  act id (announce msg) f = record {
    read_so_far = f.read_so_far;
    published = f.published ++ msg ∷ [];
    admitted = f.admitted ++ with_room msg (get f.broker.subscribers id);
    broker = publish f.broker msg;
  }
  act id (read j) f =
      let (msg, b) = next f.broker j in
      record f { read_so_far = f.read_so_far ++ got (j == id) msg; broker = b }

  unfoldable pub play : String → List (Act M) → Flow M → Flow M
  unfolding act
  play id [] f = f
  play id (a ∷ as') f = play id as' (act id a f)

  abbrev pub open_stream : Broker M → String → Flow M
  open_stream b id = record {
    read_so_far = [];
    published = [];
    admitted = [];
    broker = subscribe b id;
  }

  -- `buffer` is what waits for the connection.
  pub record Sound (id : String) (f : Flow M) : Type 0 where
    pub buffer : List M
    pub found : get f.broker.subscribers id ≡ some buffer
    pub bounded : length buffer ≤ 16
    pub exact : f.read_so_far ++ buffer ≡ f.admitted
    pub in_order : Part f.admitted f.published

  offer-cases :
      (msg : M) (ch : List M)
      → ((length ch + 1 ≤ 16)
          × (offer msg ch ≡ ch ++ msg ∷ [])
          × (with_room msg (some ch) ≡ msg ∷ []))
        ⊎ ((offer msg ch ≡ ch) × (with_room msg (some ch) ≡ []))
  unfolding offer
  offer-cases msg ch = elim (Bool-cases (ltb (length ch) 16)) [
    | inl e ↦ inl (ground arith, ground arith, rw e refl)
    | inr n ↦ inr (ground arith, rw n refl)
  ]

  announce-Sound :
      (id : String) (msg : M) (f : Flow M) → Sound id f → Sound id (act id (announce msg) f)
  unfolding act publish
  announce-Sound id msg f s = elim (offer-cases msg s.buffer) [
    | inl (room, e, d) ↦ record {
      buffer = s.buffer ++ msg ∷ [];
      found = rw (get-fan_out, s.found, e) refl;
      bounded = omega (arith, length-append s.buffer (msg ∷ []));
      exact =
          sym (append_assoc f.read_so_far s.buffer (msg ∷ []))
          ∙ ap (λ xs. xs ++ msg ∷ []) s.exact
          ∙ rw (s.found, d) refl;
      in_order = rw (s.found, d) (Part-keep msg s.in_order);
    }
    | inr (e, d) ↦ record {
      buffer = s.buffer;
      found = rw (get-fan_out, s.found, e) refl;
      bounded = s.bounded;
      exact = rw (s.found, d, append-nil f.admitted) s.exact;
      in_order = rw (s.found, d, append-nil f.admitted) (Part-skip msg s.in_order);
    }
  ]

  next-absent : (b : Broker M) (id : String) → get b.subscribers id ≡ none → next b id ≡ (none, b)
  unfolding next
  next-absent b id e = ground arith

  next-empty : (b : Broker M) (id : String) → get b.subscribers id ≡ some [] → next b id ≡ (none, b)
  unfolding next
  next-empty b id e = ground arith

  next-first :
      (b : Broker M) (id : String) (x : M) (rest : List M)
      → get b.subscribers id ≡ some (x ∷ rest)
      → next b id ≡ (some x, record b { subscribers = put b.subscribers id rest })
  unfolding next
  next-first b id x rest e = ground arith

  next-other :
      (b : Broker M) (id j : String) (o : Option (List M))
      → get b.subscribers j ≡ o
      → (j == id) ≡ false
      → get (next b j).1.subscribers id ≡ get b.subscribers id
  next-other b id j none e n = rw (next-absent b j e)
  next-other b id j (some []) e n = rw (next-empty b j e)
  next-other b id j (some (x ∷ rest)) e n = rw (next-first b j x rest e) (rw (get-put, n))

  read-Sound_other :
      (id j : String) (f : Flow M) → (j == id) ≡ false → Sound id f → Sound id (act id (read j) f)
  unfolding act
  read-Sound_other id j f n s = record {
    buffer = s.buffer;
    found = next-other f.broker id j (get f.broker.subscribers j) refl n ∙ s.found;
    bounded = s.bounded;
    exact = rw (n, append-nil) s.exact;
    in_order = s.in_order;
  }

  read-Sound_self :
      (id : String) (f : Flow M) (buffer : List M)
      → get f.broker.subscribers id ≡ some buffer
      → length buffer ≤ 16
      → f.read_so_far ++ buffer ≡ f.admitted
      → Part f.admitted f.published
      → Sound id (act id (read id) f)
  unfolding act
  read-Sound_self id f [] e b p c =
      rw (next-empty f.broker id e, eq_refl, append-nil f.read_so_far)
        (record { buffer = []; found = e; bounded = b; exact = p; in_order = c })
  read-Sound_self id f (x ∷ rest) e b p c =
      rw (next-first f.broker id x rest e, eq_refl)
        (record {
          buffer = rest;
          found = rw (get-put, eq_refl);
          bounded = omega arith;
          exact = rw (append_assoc f.read_so_far (x ∷ []) rest) p;
          in_order = c;
        })

  read-Sound : (id j : String) (f : Flow M) → Sound id f → Sound id (act id (read j) f)
  read-Sound id j f s = elim (Bool-cases (j == id)) [
    | inl e ↦
        rw ((eq_iff j id).0 e) (read-Sound_self id f s.buffer s.found s.bounded s.exact s.in_order)
    | inr n ↦ read-Sound_other id j f n s
  ]

  play-Sound :
      (id : String) (acts : List (Act M)) (f : Flow M) → Sound id f → Sound id (play id acts f)
  unfolding play
  play-Sound id [] f s = s
  play-Sound id (announce msg ∷ acts) f s = play-Sound id acts _ (announce-Sound id msg f s)
  play-Sound id (read j ∷ acts) f s = play-Sound id acts _ (read-Sound id j f s)

  -- A connection that has subscribed reads, through any publications and any reads of all
  -- connections, the published messages in their order: what it read and what then waits in its
  -- buffer, of at most sixteen messages, is exactly those publications, in their order, that found fewer than sixteen messages in its buffer when they were published.
  pub stream_in_order :
      (b : Broker M) (id : String) (acts : List (Act M))
      → Sound id (play id acts (open_stream b id))
  unfolding subscribe
  stream_in_order b id acts = play-Sound id acts (open_stream b id) (record {
    buffer = [];
    found = rw (get-put, eq_refl);
    bounded = omega arith;
    exact = refl;
    in_order = stop;
  })
