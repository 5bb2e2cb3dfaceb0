-- ===== src/Tests/Log.antt =====
-- A tree as the log of its writes, newest first: it shows that the laws of `Tree` can be met.
use scherzo.Prelude.{
  true, false, ◌≡◌, refl, ◌⊎◌, inl, inr, Option, none, some, List, [], ◌∷◌, Bytes, bytes_eq,
  bytes_eq→eq, bytes_eq_self, Bool-cases, if◌then◌else◌, ◌∙◌, sym, ap,
}
use scherzo.Db.Ids.{bytes_lt}
use scherzo.Db.Tree.{Tree, In, is_prefix, is_some, after_writes}

abbrev pub Log : Type 0
Log = List (Bytes × Option Bytes)

abbrev pub get : Log → Bytes → Option Bytes
get [] j = none
get ((k, v) ∷ s) j = if bytes_eq k j then v else get s j

abbrev pub write_all : Log → List (Bytes × Option Bytes) → Log
write_all s [] = s
write_all s (w ∷ ws) = write_all (w ∷ s) ws

pub get-write_all :
    (s : Log) (ws : List (Bytes × Option Bytes)) (j : Bytes)
    → get (write_all s ws) j ≡ after_writes ws j (get s j)
unfolding after_writes
get-write_all s [] j = refl
get-write_all s ((k, v) ∷ ws) j = get-write_all ((k, v) ∷ s) ws j ∙ ap (after_writes ws j) refl

abbrev pub without : Bytes → List (Bytes × Bytes) → List (Bytes × Bytes)
without k [] = []
without k ((j, v) ∷ es) = let rest = without k es in if bytes_eq k j then rest else (j, v) ∷ rest

abbrev pub put_front : Bytes → Bytes → Option Bytes → List (Bytes × Bytes) → List (Bytes × Bytes)
put_front p k none es = es
put_front p k (some v) es = if is_prefix p k then (k, v) ∷ es else es

abbrev pub scan : Log → Bytes → List (Bytes × Bytes)
scan [] p = []
scan ((k, o) ∷ s) p = put_front p k o (without k (scan s p))

mem-without→ :
    (k j v : Bytes) (es : List (Bytes × Bytes))
    → In (j, v) (without k es)
    → (bytes_eq k j ≡ false) × In (j, v) es
mem-without→ k j v [] m = absurd m
mem-without→ k j v ((i, w) ∷ es) m = elim (Bool-cases (bytes_eq k i)) [
  | inl hit ↦ let (ne, m') = mem-without→ k j v es (rw hit at m) in (ne, inr m')
  | inr miss ↦ elim (rw miss at m) [
    | inl e ↦ (ap (λ p. bytes_eq k p.0) e ∙ miss, inl e)
    | inr m' ↦ let (ne, m'') = mem-without→ k j v es m' in (ne, inr m'')
  ]
]

mem-without← :
    (k j v : Bytes) (es : List (Bytes × Bytes))
    → bytes_eq k j ≡ false
    → In (j, v) es
    → In (j, v) (without k es)
mem-without← k j v [] ne m = m
mem-without← k j v ((i, w) ∷ es) ne (inl e) = rw (sym (ap (λ p. bytes_eq k p.0) e) ∙ ne) (inl e)
mem-without← k j v ((i, w) ∷ es) ne (inr m) = elim (Bool-cases (bytes_eq k i)) [
  | inl hit ↦ rw hit (mem-without← k j v es ne m)
  | inr miss ↦ rw miss (inr (mem-without← k j v es ne m))
]

abbrev Found : Log → Bytes → Bytes → Bytes → Type 0
Found s p j v = (is_prefix p j ≡ true) × (get s j ≡ some v)

put_front→ :
    (p k : Bytes) (o : Option Bytes) (es : List (Bytes × Bytes)) (j v : Bytes)
    → In (j, v) (put_front p k o es)
    → ((o ≡ some v) × (k ≡ j) × (is_prefix p k ≡ true)) ⊎ In (j, v) es
put_front→ p k none es j v m = inr m
put_front→ p k (some w) es j v m = elim (Bool-cases (is_prefix p k)) [
  | inl hit ↦ elim (rw hit at m) [
    | inl e ↦ inl (ap (λ q. some q.1) (sym e), ap (λ q. q.0) (sym e), hit)
    | inr m' ↦ inr m'
  ]
  | inr miss ↦ inr (rw miss at m)
]

put_front-keeps :
    (p k : Bytes) (o : Option Bytes) (es : List (Bytes × Bytes)) (e : Bytes × Bytes)
    → In e es
    → In e (put_front p k o es)
put_front-keeps p k none es e m = m
put_front-keeps p k (some w) es e m = elim (Bool-cases (is_prefix p k)) [
  | inl hit ↦ rw hit (inr m)
  | inr miss ↦ rw miss m
]

pub mem-scan→ : (s : Log) (p j v : Bytes) → In (j, v) (scan s p) → Found s p j v
mem-scan→ [] p j v m = absurd m
mem-scan→ ((k, o) ∷ s) p j v m = elim (put_front→ p k o (without k (scan s p)) j v m) [
  | inl (held, same, pre) ↦ (ap (is_prefix p) (sym same) ∙ pre, rw (sym same, bytes_eq_self k) held)
  | inr m' ↦
      let (ne, m'') = mem-without→ k j v (scan s p) m' in
      let (pre, held) = mem-scan→ s p j v m'' in (pre, rw ne held)
]

pub mem-scan← : (s : Log) (p j v : Bytes) → Found s p j v → In (j, v) (scan s p)
mem-scan← [] p j v f = absurd cc
mem-scan← ((k, o) ∷ s) p j v (pre, held) = elim (Bool-cases (bytes_eq k j)) [
  | inl hit ↦ let same : k ≡ j = bytes_eq→eq k j hit in rw (rw hit at held, same, pre) (inl refl)
  | inr miss ↦
      put_front-keeps p k o (without k (scan s p)) (j, v)
        (mem-without← k j v (scan s p) miss (mem-scan← s p j v (pre, rw miss at held)))
]

abbrev put_in_order : Bytes × Bytes → List (Bytes × Bytes) → List (Bytes × Bytes)
put_in_order e [] = e ∷ []
put_in_order e (f ∷ fs) = if bytes_lt e.0 f.0 then e ∷ f ∷ fs else f ∷ put_in_order e fs

-- The entries from `low` up to `high`, both included, in the order of their keys.
abbrev pub between : Bytes → Bytes → List (Bytes × Bytes) → List (Bytes × Bytes)
between low high [] = []
between low high ((k, v) ∷ es) =
    let rest = between low high es in
    if bytes_lt k low then rest else if bytes_lt high k then rest else put_in_order (k, v) rest

abbrev pub log : Tree
log = record {
  State = Log;
  get = get;
  contains_key = λ s k. is_some (get s k);
  insert = λ s k v. (k, some v) ∷ s;
  remove = λ s k. (k, none) ∷ s;
  removed = get;
  apply_batch = λ s b. write_all s b.inserts;
  scan_prefix = scan;
  range = λ s low high. between low high (scan s []);
  contains_key-get = λ s k. refl;
  get-insert = λ s k v j. refl;
  get-remove = λ s k j. refl;
  get-apply_batch = λ s b j. get-write_all s b.inserts j;
  mem-scan_prefix = λ s p k v. (mem-scan→ s p k v, mem-scan← s p k v);
}
