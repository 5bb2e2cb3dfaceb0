-- ===== src/Rest/Layout.antt =====
-- How a file of the media folder is laid out, and what is read of it (`read_bufs` of src/impls/rest/download.rs).
use mathlib.Core.List.{append-nil}
use scherzo.Prelude.{
  ℕ, zero, suc, ◌+◌, ◌≡◌, ◌≢◌, refl, sym, ◌∙◌, ap, false, List, [], ◌∷◌, ◌++◌, map, Bytes, arith,
  length, length-append, take, drop,
}
use scherzo.Exec.{ok}
use scherzo.Db.Keys.{concat}
use scherzo.Rest.Files.{Infer, separator, write_chunks, read_until, pop, read_bufs}

-- A text of one line.
abbrev pub Line : Bytes → Type 0
Line [] = Unit
Line (c ∷ cs) = (c ≢ separator) × Line cs

-- What a file holds.
abbrev pub layout : (name content_type bytes : Bytes) → Bytes
layout name content_type bytes = name ++ separator ∷ (content_type ++ separator ∷ bytes)

pub append_assoc : (a b c : Bytes) → (a ++ b) ++ c ≡ a ++ (b ++ c)
append_assoc [] b c = refl
append_assoc (x ∷ a) b c = ap (λ ys. x ∷ ys) (append_assoc a b c)

pub write_chunks-ok :
    (flushed : ℕ) (written pending : Bytes) (chunks : List Bytes)
    → write_chunks flushed written pending (map ok chunks)
      ≡ (ok tt, written ++ (pending ++ concat chunks))
unfolding write_chunks concat
write_chunks-ok flushed written pending [] =
    ap (λ p. (ok tt, written ++ p)) (sym (append-nil pending))
write_chunks-ok flushed written pending (chunk ∷ chunks) =
    write_chunks-ok flushed written (pending ++ chunk) chunks
    ∙ ap (λ p. (ok tt, written ++ p)) (append_assoc pending chunk (concat chunks))

read_until-Line :
    (line rest : Bytes)
    → Line line
    → read_until (line ++ separator ∷ rest) ≡ (line ++ separator ∷ [], rest)
unfolding read_until
read_until-Line [] rest h = refl
read_until-Line (c ∷ line) rest (ne, h) = ground (arith, read_until-Line line rest h)

pop-append : (line : Bytes) → pop (line ++ separator ∷ []) ≡ line
unfolding pop
pop-append [] = refl
pop-append (b ∷ []) = refl
pop-append (b ∷ c ∷ line) = ap (λ ys. b ∷ ys) (pop-append (c ∷ line))

drop-append : (a b : Bytes) (n : ℕ) → n ≡ length a → drop n (a ++ b) ≡ b
drop-append [] b zero e = refl
drop-append [] b (suc n) e = absurd (omega arith)
drop-append (x ∷ a) b zero e = absurd (omega arith)
drop-append (x ∷ a) b (suc n) e = drop-append a b n (omega arith)

pub take-all : (n : ℕ) (xs : Bytes) → n ≡ length xs → take n xs ≡ xs
take-all zero [] e = refl
take-all (suc n) [] e = refl
take-all zero (x ∷ xs) e = absurd (omega arith)
take-all (suc n) (x ∷ xs) e = ap (λ ys. x ∷ ys) (take-all n xs (omega arith))

-- What is read of a file that was written.
pub read_bufs-layout :
    (infer : Infer) (name content_type bytes : Bytes)
    → Line name
    → Line content_type
    → read_bufs infer (layout name content_type bytes) false ≡ (name, content_type, bytes)
unfolding read_bufs
read_bufs-layout infer name content_type bytes h k =
    rw
      (
        read_until-Line name (content_type ++ separator ∷ bytes) h,
        read_until-Line content_type bytes k,
        pop-append name,
        pop-append content_type,
      )
      refl

pub length-layout :
    (name content_type bytes : Bytes)
    → length (layout name content_type bytes) ≡ length name + length content_type + 2 + length bytes
length-layout name content_type bytes = omega (
  arith,
  length-append name (separator ∷ (content_type ++ separator ∷ bytes)),
  length-append content_type (separator ∷ bytes),
)

pub drop-layout :
    (name content_type bytes : Bytes)
    → drop (length name + length content_type + 2) (layout name content_type bytes) ≡ bytes
drop-layout name content_type bytes =
    ap (drop (length name + length content_type + 2)) (
      sym (
        append_assoc name (separator ∷ content_type ++ separator ∷ []) bytes
        ∙ ap (λ ys. name ++ separator ∷ ys) (append_assoc content_type (separator ∷ []) bytes)))
    ∙ drop-append (name ++ separator ∷ (content_type ++ separator ∷ [])) bytes
        (length name + length content_type + 2)
        (omega (
          arith,
          length-append name (separator ∷ (content_type ++ separator ∷ [])),
          length-append content_type (separator ∷ []),
        ))
