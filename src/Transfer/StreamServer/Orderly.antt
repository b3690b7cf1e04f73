-- ===== src/Transfer/StreamServer/Orderly.antt =====
-- Connections and tasks of the stream server in every interleaving
-- (src/transfer/tcp/TransferServer.cpp).
use asinc_roulette.Base.{
  ℕ, ◌+◌, ◌≤◌, ◌≡◌, refl, ap, ◌∙◌, Bool, true, false, nat_eq, none, some, Option-cases, arith,
  erase_key, inl, inr,
}
use asinc_roulette.Base.Counting.{count, count-erase_key}
use asinc_roulette.Base.Map.{Map, lookup, member, insert, lookup-insert}
use asinc_roulette.Transfer.StreamServer.State.{Connection, TransferServer, change, is_free}

abbrev pub idle : Bool → ℕ
idle true = 1
idle false = 0

module _ {V : Type 0} where
  no_member : (id : ℕ) (m : Map ℕ V) → member id m ≡ false → lookup id m ≡ none
  no_member id m h = ground arith

  not_member : (id : ℕ) (m : Map ℕ V) → lookup id m ≡ none → member id m ≡ false
  not_member id m h = ground arith

module _ {K W : Type 0} where
  -- Each connection is free or has exactly one task; ids from `max_id` on are new; connections
  -- have their objects, and are listed once.
  pub record IsOrderly (s : TransferServer K W) : Type 0 where
    pub balanced : (id : ℕ) → count id s.tasks + idle (is_free id s) ≡ 1
    pub fresh : (id : ℕ) → s.max_id ≤ id → lookup id s.heap ≡ none
    pub stored : (id : ℕ) → 1 ≤ count id s.connections → member id s.heap ≡ true
    pub distinct : (id : ℕ) → count id s.connections ≤ 1

  -- A step that changes nothing but sockets and marks, and loses connections at most.
  pub record Quiet (s t : TransferServer K W) : Type 0 where
    pub tasks : t.tasks ≡ s.tasks
    pub max_id : t.max_id ≡ s.max_id
    pub frees : (id : ℕ) → is_free id t ≡ is_free id s
    pub objects : (id : ℕ) → member id t.heap ≡ member id s.heap
    pub fewer : (id : ℕ) → count id t.connections ≤ count id s.connections

  pub Quiet-IsOrderly : (s t : TransferServer K W) → Quiet s t → IsOrderly s → IsOrderly t
  Quiet-IsOrderly s t q h = record {
    balanced = λ id. omega (arith, h.balanced id, ap (count id) q.tasks, ap idle (q.frees id));
    fresh = λ id le.
        no_member id t.heap
          (q.objects id ∙ not_member id s.heap (h.fresh id (omega (arith, q.max_id))));
    stored = λ id c. q.objects id ∙ h.stored id (omega (arith, q.fewer id));
    distinct = λ id. omega (arith, q.fewer id, h.distinct id);
  }

  pub Quiet-same : (s : TransferServer K W) → Quiet s s
  Quiet-same s = record {
    tasks = refl;
    max_id = refl;
    frees = λ id. refl;
    objects = λ id. refl;
    fewer = λ id. omega arith;
  }

  -- Another object under an id that had one.
  pub Quiet-insert :
      (id : ℕ) (c d : Connection K) (s : TransferServer K W)
      → lookup id s.heap ≡ some c
      → d.free ≡ c.free
      → Quiet s (record s { heap = insert id d s.heap })
  unfolding is_free
  Quiet-insert id c d s look same = record {
    tasks = refl;
    max_id = refl;
    frees = λ j. ground (arith, lookup-insert id j d s.heap, nat_eq.beq_iff j id);
    objects = λ j. ground (arith, lookup-insert id j d s.heap, nat_eq.beq_iff j id);
    fewer = λ j. omega arith;
  }

  pub Quiet-change :
      (id : ℕ) (f : Connection K → Connection K) (s : TransferServer K W)
      → ((c : Connection K) → (f c).free ≡ c.free)
      → Quiet s (change id f s)
  unfolding change
  Quiet-change id f s same = elim (Option-cases (lookup id s.heap)) [
    | inl missing ↦ rw (change, missing) (Quiet-same s)
    | inr (c, look) ↦ rw (change, look) (Quiet-insert id c (f c) s look (same c))
  ]

  -- The same without a connection.
  pub Quiet-erase :
      (id : ℕ) (w : W) (s t : TransferServer K W)
      → Quiet s t
      → Quiet s (record t { connections = erase_key id s.connections; app = w })
  unfolding is_free
  Quiet-erase id w s t q = record {
    tasks = q.tasks;
    max_id = q.max_id;
    frees = q.frees;
    objects = q.objects;
    fewer = λ j. ground (arith, count-erase_key j id s.connections);
  }
