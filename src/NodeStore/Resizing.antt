-- ===== src/NodeStore/Resizing.antt =====
-- Resizing the table of src/server/ua_nodestore.c.
use opc_ua.Common.{
  ℕ, zero, suc, ◌+◌, ◌≤◌, ◌<◌, ◌^◌, ◌≡◌, ◌≢◌, refl, ap, subst, ◌∙◌, inl, inr, arith, true, false,
  none, some, [], ◌∷◌, length-set, length-replicate, set, Bool-cases,
}
use opc_ua.Types.{node_id_equal}
use opc_ua.Status.{good}
use opc_ua.NodeStore.Table.{Node, Entries, NodeStore, free, entry, contains_node_id}
use opc_ua.NodeStore.Cycle.{is_prime}
use opc_ua.NodeStore.Probe.{get_or-set, get_or-set_other}
use opc_ua.NodeStore.Lookup.{
  IsTable, Search-cases, get-found, contains-found, contains-free, contains-inside, contains-fill,
  contains-fill_other,
}
use opc_ua.NodeStore.Termination.{contains_node_id-ends}
use opc_ua.NodeStore.Operations.{
  returned, get, get_at, fill, write, move_to, move_entries, keeps_size, resized, expand,
}
use opc_ua.NodeStore.Counting.{
  used, used-free, used-set, used-replicate, used-none, entry-set, step-none, step-some,
}

module _ {ℓ} {A : Type ℓ} where
  -- No node of a table has an id that is equal to the node's.
  abbrev pub IsApart : Node A → Entries A → Type ℓ
  IsApart n es =
      (j : ℕ) (m : Node A) → entry es j ≡ some m → node_id_equal m.node_id n.node_id ≡ false

  -- No two nodes have equal ids.
  abbrev pub IsDistinct : Entries A → Type ℓ
  IsDistinct [] = Unit {ℓ}
  IsDistinct (none ∷ es) = IsDistinct es
  IsDistinct (some n ∷ es) =
      ((j : ℕ) (m : Node A) → entry es j ≡ some m → node_id_equal n.node_id m.node_id ≡ false)
      × IsDistinct es

  module _ (ns : NodeStore A) (n : Node A) (e : ℕ) (ok : IsTable ns)
      (vacant : contains_node_id ns n.node_id ≡ free e) where
    write-own : get (write ns e (some n)) n.node_id ≡ some n
    unfolding get contains_node_id fill
    write-own =
        ap (get_at (set ns.entries e (some n))) (contains-fill ns n ok vacant)
        ∙ get_or-set ns.entries e (some n) none (contains-inside ns n.node_id ok vacant)

    write-other :
        (x : Node A) → get ns x.node_id ≡ some x → get (write ns e (some n)) x.node_id ≡ some x
    unfolding get contains_node_id fill
    write-other x h =
        let (j, at_j, node_j) = get-found ns x.node_id h in
        let gone = contains-free ns n.node_id vacant in
        let apart : j ≢ e = λ k. cc (ap (λ l. entry ns.entries l) k, gone, node_j) in
        ap (get_at (set ns.entries e (some n))) (contains-fill_other ns x.node_id n e gone at_j)
        ∙ get_or-set_other ns.entries e j (some n) none apart
        ∙ node_j

  -- The condition under which the nodes of a list of entries can be moved to a table.
  pub record Fits (es : Entries A) (ns : NodeStore A) : Type ℓ where
    pub ok : IsTable ns
    pub prime : is_prime ns.size ≡ true
    pub small : ns.size < 2 ^ 31
    pub space : used ns.entries + used es < ns.size
    pub distinct : IsDistinct es
    pub apart : (j : ℕ) (n : Node A) → entry es j ≡ some n → IsApart n ns.entries

  -- The table after the nodes have been moved: they are got, and the others still are.
  pub record Moved (es : Entries A) (ns ns' : NodeStore A) : Type ℓ where
    pub moved : (j : ℕ) (n : Node A) → entry es j ≡ some n → get ns' n.node_id ≡ some n
    pub kept : (n : Node A) → get ns n.node_id ≡ some n → get ns' n.node_id ≡ some n

  Fits-free :
      (n : Node A) (es : Entries A) (ns : NodeStore A)
      → Fits (some n ∷ es) ns
      → (e : ℕ) × (contains_node_id ns n.node_id ≡ free e)
  Fits-free n es ns f =
      let (j, vacant, inside) = used-free ns.entries (omega (arith, f.ok.sized, f.space)) in
      let ends =
        contains_node_id-ends ns n.node_id j f.ok f.prime f.small vacant
          (omega (arith, f.ok.sized)) in
      elim (Search-cases (contains_node_id ns n.node_id)) [
        | inl (i, at_i) ↦
            let (m, node_i, same) = contains-found ns n.node_id at_i in
            absurd (cc (same, f.apart 0 n refl i m node_i))
        | inr (inl here) ↦ here
        | inr (inr lost) ↦ absurd (ends lost)
      ]

  Fits-write :
      (n : Node A) (es : Entries A) (ns : NodeStore A) (e : ℕ)
      → Fits (some n ∷ es) ns
      → contains_node_id ns n.node_id ≡ free e
      → Fits es (write ns e (some n))
  Fits-write n es ns e f vacant =
      let inside = contains-inside ns n.node_id f.ok vacant in
      let gone = contains-free ns n.node_id vacant in
      record {
        ok = record {
          sized = length-set ns.entries e (some n) ∙ f.ok.sized;
          least = f.ok.least;
          most = f.ok.most;
        };
        prime = f.prime;
        small = f.small;
        space = omega (arith, used-set ns.entries e n gone inside, f.space);
        distinct = f.distinct.1;
        apart = λ j m node_j i x node_i. elim (entry-set ns.entries e i n x node_i) [
          | inl own ↦
              subst (λ (y : Node A). node_id_equal y.node_id m.node_id ≡ false) own
                (f.distinct.0 j m node_j)
          | inr old ↦ f.apart (suc j) m node_j i x old
        ];
      }

  move_entries-Moved :
      (es : Entries A) (left : ℕ) (ns : NodeStore A)
      → used es ≤ left
      → Fits es ns
      → (ns' : NodeStore A) × (move_entries es left ns ≡ some ns') × Moved es ns ns'
  unfolding move_entries move_to
  move_entries-Moved [] left ns h f = (ns, refl, record { moved = λ j n e. cc; kept = λ n e. e })
  move_entries-Moved (x ∷ es) zero ns h f = (
    ns,
    refl,
    record { moved = λ j n e. absurd (used-none (x ∷ es) j n (omega arith) e); kept = λ n e. e },
  )
  move_entries-Moved (none ∷ es) (suc left) ns h f =
      let (ns', run, m) = move_entries-Moved es (suc left) ns h (record {
        ok = f.ok;
        prime = f.prime;
        small = f.small;
        space = f.space;
        distinct = f.distinct;
        apart = λ j n e. f.apart (suc j) n e;
      }) in
      (
        ns',
        run,
        record { moved = step-none (λ n. get ns' n.node_id ≡ some n) es m.moved; kept = m.kept },
      )
  move_entries-Moved (some n ∷ es) (suc left) ns h f =
      let (e, vacant) = Fits-free n es ns f in
      let (ns', run, m) =
        move_entries-Moved es left (write ns e (some n)) (omega arith)
          (Fits-write n es ns e f vacant) in
      (
        ns',
        rw vacant run,
        record {
          moved =
              step-some (λ x. get ns' x.node_id ≡ some x) n es
                (m.kept n (write-own ns n e f.ok vacant)) m.moved;
          kept = λ x got. m.kept x (write-other ns n e f.ok vacant x got);
        },
      )

  Fits-resized :
      (ns : NodeStore A)
      → is_prime (resized ns).size ≡ true
      → 2 < (resized ns).size
      → (resized ns).size < 2 ^ 31
      → used ns.entries < (resized ns).size
      → IsDistinct ns.entries
      → Fits ns.entries (resized ns)
  unfolding resized
  Fits-resized ns prime least small space distinct =
      let size = (resized ns).size in
      let blank : used (resized ns).entries ≡ 0 = used-replicate size (resized ns).entries refl in
      record {
        ok = record { sized = length-replicate size none; least = least; most = omega arith };
        prime = prime;
        small = small;
        space = omega (arith, blank);
        distinct = distinct;
        apart = λ j n e i m h. absurd (used-none (resized ns).entries i m blank h);
      }

  -- If no two nodes of a table have equal ids, the count is that of its nodes, and the new table, if
  -- there is one, has memory and a prime size below 2 ^ 31, above 2 and above the count, then expand
  -- returns GOOD, and every node that UA_NodeStore_get gets under its id before it gets after it.
  pub expand-get :
      (ns : NodeStore A)
      → is_prime (resized ns).size ≡ true
      → 2 < (resized ns).size
      → (resized ns).size < 2 ^ 31
      → ns.count < (resized ns).size
      → used ns.entries ≡ ns.count
      → IsDistinct ns.entries
      → (ns' : NodeStore A) × (expand true ns ≡ returned good ns')
        × ((n : Node A) → get ns n.node_id ≡ some n → get ns' n.node_id ≡ some n)
  unfolding expand
  expand-get ns prime least small space counted distinct = elim (Bool-cases (keeps_size ns)) [
    | inl stays ↦ (ns, rw stays refl, λ n got. got)
    | inr moves ↦
        let fits = Fits-resized ns prime least small (omega arith) distinct in
        let (ns', run, m) =
          move_entries-Moved ns.entries ns.count (resized ns) (omega arith) fits in
        (
          ns',
          rw (moves, run) refl,
          λ n got. let (j, _, node_j) = get-found ns n.node_id got in m.moved j n node_j,
        )
  ]
