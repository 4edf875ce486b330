-- ===== src/Examples/DiskLaws.antt =====
-- The disk of the examples satisfies what materialization relies on.
use fuse_promise.Base.{
  ◌==◌, ◌<◌, lookup-insert_ne, lookup-insert_self, lookup-remove, Option-cases, arith, ℕ, ◌≡◌, ◌≢◌,
  refl, ap, sym, ◌∙◌, Bool, true, false, Option, none, some, List, [], ◌∷◌, Str, lookup, insert,
  remove, same, same_iff, Bool-cases, inl, inr, if◌then◌else◌,
}
use fuse_promise.Ipc.Message.{done}
use fuse_promise.Materialize.Files.{FileIdentity, Place, identity_of, identity_at, IsLawful}
use fuse_promise.Path.{split}
use fuse_promise.Examples.Disk.{
  Link, Links, link_key, Disk, among, names, walk, locate, fresh_link, fresh_inode, linked, stat_of,
  create_in, create_at, quietly, may_remove, removed_in, removed_at, link_of, entry_of, memory,
}

some_injective : {A : Type 0} {a b : A} → some a ≡ some b → a ≡ b
some_injective h = cc

-- An entry shows the inode that is linked.
entry_lem :
    (native : Bool) (found : Option ℕ) {i : FileIdentity}
    → entry_of native found ≡ some i
    → (inode : ℕ) × (found ≡ some inode) × (record { dev = 1; ino = inode } ≡ i)
entry_lem true (some inode) h = (inode, refl, some_injective h)
entry_lem true none h = cc
entry_lem false found h = cc

kept_lem :
    (a b : Disk) (q : Place) {i : FileIdentity}
    → lookup (link_of q) b.links ≡ lookup (link_of q) a.links
    → memory.entry q a ≡ some i
    → memory.entry q b ≡ some i
kept_lem a b q same_link kept = ap (entry_of (q.parent.dev == 1)) same_link ∙ kept

removed_lem :
    (is_dir : Bool) (s : Disk) (q : Place) (link : Link) (found : Option ℕ) {i : FileIdentity}
    → lookup link s.links ≡ found
    → memory.entry q s ≡ some i
    → identity_of (stat_of s found) ≢ some i
    → memory.entry q (removed_in is_dir link found s).0 ≡ some i
removed_lem is_dir s q link none e kept differs = kept
removed_lem is_dir s q link (some inode) e kept differs =
    let (n, numbered, identity) = entry_lem (q.parent.dev == 1) (lookup (link_of q) s.links) kept in
    elim (Bool-cases (may_remove is_dir inode s)) [
      | inr stays ↦ rw stays kept
      | inl goes ↦ rw goes (elim (Bool-cases (same link (link_of q))) [
        | inl hit ↦
            let place : link ≡ link_of q = (same_iff link (link_of q)).0 hit in
            let equal : some inode ≡ some n = sym e ∙ ap (λ l. lookup l s.links) place ∙ numbered in
            absurd (
              differs (
                ap (λ m. some (record { dev = 1; ino = m })) (some_injective equal)
                ∙ ap some identity))
        | inr miss ↦
            kept_lem s (record s { links = remove link s.links }) q
              (lookup-remove link (link_of q) s.links
                ∙ ap (λ b. if b then none else lookup (link_of q) s.links) miss)
              kept
      ])
    ]

removed_at_lem :
    (is_dir : Bool) (s : Disk) (p : Str) (q : Place) {i : FileIdentity}
    → memory.entry q s ≡ some i
    → identity_at memory p s ≢ some i
    → memory.entry q (removed_at is_dir (locate p s) s).0 ≡ some i
removed_at_lem is_dir s p q {i} kept differs = at (locate p s) refl
  where
    at :
        (place : Option Link)
        → locate p s ≡ place
        → memory.entry q (removed_at is_dir place s).0 ≡ some i
    at none e = kept
    at (some link) e =
        removed_lem is_dir s q link (lookup link s.links) refl kept
          (λ same. differs (ap (λ o. identity_of (stat_of s (linked o s))) e ∙ same))

-- An inode that is linked is no new one.
fresh_link_lem :
    (link : Link) (links : Links) {n : ℕ} → lookup link links ≡ some n → n < fresh_link links
unfolding lookup fresh_link
fresh_link_lem link [] h = cc
fresh_link_lem link ((other, m) ∷ links) {n} h = elim (Bool-cases (same other link)) [
  | inl hit ↦
      let named : some m ≡ some n = rw hit at h in
      let equal : m ≡ n = some_injective named in omega arith
  | inr miss ↦ let rest = fresh_link_lem link links (rw miss at h) in omega (arith, rest)
]

fresh_inode_lem :
    (link : Link) (s : Disk) {n : ℕ} → lookup link s.links ≡ some n → n < fresh_inode s
unfolding fresh_inode
fresh_inode_lem link s h = omega (arith, fresh_link_lem link s.links h)

-- A place that has no entry is found as before when an entry is put there.
walk-insert :
    (locked : List ℕ) (links : Links) (link : Link) (inode d : ℕ) (ns : List Str)
    → lookup link links ≡ none
    → walk locked links d ns ≡ some link
    → walk locked (insert link inode links) d ns ≡ some link
unfolding walk
walk-insert locked links link inode d [] free h = cc
walk-insert locked links link inode d (n ∷ []) free h = h
walk-insert locked links link inode d (n ∷ m ∷ ns) free h = elim (Bool-cases (among d locked)) [
  | inl shut ↦ let never : none ≡ some link = rw shut at h in cc
  | inr searched ↦ elim (Option-cases (lookup (d, n) links)) [
    | inl gone ↦ let never : none ≡ some link = rw (searched, gone) at h in cc
    | inr (e, there) ↦
        let other : same link (d, n) ≡ false = elim (Bool-cases (same link (d, n))) [
          | inl hit ↦
              let place : link ≡ (d, n) = (same_iff link (d, n)).0 hit in
              let both : none ≡ some e = sym free ∙ ap (λ l. lookup l links) place ∙ there in cc
          | inr miss ↦ miss
        ] in
        let before : walk locked links e (m ∷ ns) ≡ some link = rw (searched, there) at h in
        rw (searched, lookup-insert_ne link (d, n) inode links other, there)
          (walk-insert locked links link inode e (m ∷ ns) free before)
  ]
]

-- The entries that are there, and the file that is created.
created_lem :
    (is_dir : Bool) (s : Disk) (q : Place) (link : Link) {i : FileIdentity}
    → lookup link s.links ≡ none
    → memory.entry q s ≡ some i
    → (memory.entry q (create_in is_dir s link none).0 ≡ some i) × (fresh_inode s ≢ i.ino)
created_lem is_dir s q link {i} free kept =
    let (n, numbered, identity) = entry_lem (q.parent.dev == 1) (lookup (link_of q) s.links) kept in
    let other : same link (link_of q) ≡ false = elim (Bool-cases (same link (link_of q))) [
      | inl hit ↦
          let place : link ≡ link_of q = (same_iff link (link_of q)).0 hit in
          let both : none ≡ some n = sym free ∙ ap (λ l. lookup l s.links) place ∙ numbered in cc
      | inr miss ↦ miss
    ] in
    let less = fresh_inode_lem (link_of q) s numbered in
    let number : n ≡ i.ino = ap (λ (j : FileIdentity). j.ino) identity in
    (
      kept_lem s (create_in is_dir s link none).0 q
          (lookup-insert_ne link (link_of q) (fresh_inode s) s.links other) kept,
      λ e. omega (arith, less, number, e),
    )

-- What a path names where the file was created.
made_lem :
    (is_dir : Bool) (s : Disk) (p : Str) (link : Link)
    → locate p s ≡ some link
    → lookup link s.links ≡ none
    → identity_at memory p (create_in is_dir s link none).0
      ≡ some (record { dev = 1; ino = fresh_inode s })
unfolding locate
made_lem is_dir s p link e free =
    let after = (create_in is_dir s link none).0 in
    let place : locate p after ≡ some link =
      walk-insert s.locked s.links link (fresh_inode s) 0 (names (split p)) free e in
    ap (λ o. identity_of (stat_of after (linked o after))) place
    ∙ ap (λ o. identity_of (stat_of after o)) (lookup-insert_self link (fresh_inode s) s.links)

number_lem :
    {inode : ℕ} {i : FileIdentity} → some (record { dev = 1; ino = inode }) ≡ some i → inode ≡ i.ino
number_lem h = ap (λ (j : FileIdentity). j.ino) (some_injective h)

create_dir_at :
    (s : Disk) (p : Str) (q : Place) (place : Option Link) {i : FileIdentity}
    → locate p s ≡ place
    → memory.entry q s ≡ some i
    → (memory.entry q (quietly (create_at true s place)).0 ≡ some i)
      × ((quietly (create_at true s place)).1 ≡ done tt
          → identity_at memory p (quietly (create_at true s place)).0 ≢ some i)
create_dir_at s p q none e kept = (kept, λ made. cc)
create_dir_at s p q (some link) {i} e kept = at (lookup link s.links) refl
  where
    at :
        (found : Option ℕ)
        → lookup link s.links ≡ found
        → (memory.entry q (quietly (create_in true s link found)).0 ≡ some i)
          × ((quietly (create_in true s link found)).1 ≡ done tt
              → identity_at memory p (quietly (create_in true s link found)).0 ≢ some i)
    at (some inode) taken = (kept, λ made. cc)
    at none free =
        let (stays, fresh) = created_lem true s q link free kept in
        (stays, λ made same. fresh (number_lem (sym (made_lem true s p link e free) ∙ same)))

open_new_at :
    (s : Disk) (q : Place) (place : Option Link) {i : FileIdentity}
    → memory.entry q s ≡ some i
    → (memory.entry q (create_at false s place).0 ≡ some i)
      × ((handle : ℕ)
          → (create_at false s place).1 ≡ done handle
          → identity_of (memory.metadata handle (create_at false s place).0) ≢ some i)
open_new_at s q none kept = (kept, λ handle made. cc)
open_new_at s q (some link) {i} kept = at (lookup link s.links) refl
  where
    at :
        (found : Option ℕ)
        → lookup link s.links ≡ found
        → (memory.entry q (create_in false s link found).0 ≡ some i)
          × ((handle : ℕ)
              → (create_in false s link found).1 ≡ done handle
              → identity_of (memory.metadata handle (create_in false s link found).0) ≢ some i)
    at (some inode) taken = (kept, λ handle made. cc)
    at none free =
        let (stays, fresh) = created_lem false s q link free kept in
        (
          stays,
          λ handle made same.
              let opened : fresh_inode s ≡ handle = cc in fresh (opened ∙ number_lem same),
        )

pub memory-IsLawful : IsLawful memory
memory-IsLawful = record {
  remove_file_entry = λ s p q kept differs. removed_at_lem false s p q kept differs;
  remove_dir_entry = λ s p q kept differs. removed_at_lem true s p q kept differs;
  set_path_permissions_entry = λ s p q mode. refl;
  set_permissions_entry = λ s handle q mode. refl;
  write_all_entry = λ s handle q bytes. refl;
  futimens_entry = λ s handle q seconds nanoseconds. refl;
  create_dir_entry = λ s p q mode kept. create_dir_at s p q (locate p s) refl kept;
  open_new_entry = λ s p q mode kept. open_new_at s q (locate p s) kept;
}
