-- ===== src/Bitio/RoundTrip.antt =====
-- Encoders against decoders: `RoundTrip n e d a` says that the writer's action `e` appends
-- `n` bits and that `d` turns these bits, whatever follows them, into `a`. Round trips compose along
-- a sequence of fields.
use go_flac.Prelude.{
  ℕ, ◌+◌, ◌*◌, ◌^◌, ◌≤◌, ◌<◌, ◌≡◌, refl, sym, ap, ◌∙◌, List, [], ◌++◌, append-nil, length-append,
  arith, length,
}
use mathlib.Core.Path.{subst}
use go_flac.Errors.{eof}
use go_flac.Bitstream.{to_bits, bytes_bits, unary_bits, length-to_bits, length-bytes_bits}
use go_flac.Bitio.Source.{Source, finish, delivered}
use go_flac.Bitio.Writer.{Writer, new_writer, write_bits, write_unary, bytes}
use go_flac.Bitio.Writer.Contents
use go_flac.Bitio.Writer.Contents.{contents, Writes, Writes-refl, Writes-trans, write_bits-Writes}
use go_flac.Bitio.Writer.Flush.{write_unary-Writes, bytes-contents}
use go_flac.Bitio.Reader.{Reader, M, ok, ◌>>=◌, pure, new_reader, new_reader_size}
use go_flac.Bitio.Reader.Read.{read_bits, read_unary}
use go_flac.Bitio.Reader.Pending
use go_flac.Bitio.Reader.Pending.{pending, held, coming}
use go_flac.Bitio.Reader.Unary.{length-unary_bits}
use go_flac.Bitio.Reader.Reads.{Reads, Reads-bind, Reads-pure, Reads-read_bits, Reads-read_unary}

-- `e` appends the bits `bs`, from any valid state.
abbrev pub Appends : (Writer → Writer) → List ℕ → Type 0
Appends e bs = (w : Writer) → Contents.IsValid w → Writes w bs (e w)

pub record RoundTrip {A : Type 0} (n : ℕ) (e : Writer → Writer) (d : M A) (a : A) : Type 0 where
  pub bits : List ℕ
  pub width : length bits ≡ n
  pub appends : Appends e bits
  pub reads : Reads d bits a

pub RoundTrip-write_bits :
    (v n : ℕ) → n ≤ 57 → v < 2 ^ n → RoundTrip n (write_bits v n) (read_bits n) v
RoundTrip-write_bits v n h lt = record {
  bits = to_bits n v;
  width = length-to_bits n v;
  appends = λ w valid. write_bits-Writes w valid v n (omega arith);
  reads = Reads-read_bits n v h lt;
}

-- A field whose value the source computes in another way.
pub RoundTrip-write_eq :
    {x : ℕ} (v n : ℕ) → x ≡ v → n ≤ 57 → v < 2 ^ n → RoundTrip n (write_bits x n) (read_bits n) v
RoundTrip-write_eq v n e h lt =
    subst (λ (t : ℕ). RoundTrip n (write_bits t n) (read_bits n) v) (sym e)
      (RoundTrip-write_bits v n h lt)

pub RoundTrip-write_unary : (q : ℕ) → RoundTrip (q + 1) (write_unary q) read_unary q
RoundTrip-write_unary q = record {
  bits = unary_bits q;
  width = length-unary_bits q;
  appends = λ w valid. write_unary-Writes w valid q;
  reads = Reads-read_unary q;
}

-- One field, and then the rest.
pub RoundTrip-then :
    {A B : Type 0} {m n : ℕ} {e e' : Writer → Writer} {d : M A} {a : A} (f : A → M B) {x : B}
    → RoundTrip m e d a
    → RoundTrip n e' (f a) x
    → RoundTrip (m + n) (λ w. e' (e w)) (d >>= f) x
RoundTrip-then {d = d} {a = a} f {x = x} p q = record {
  bits = p.bits ++ q.bits;
  width = rw (length-append p.bits q.bits, p.width, q.width);
  appends = λ w valid. Writes-trans (p.appends w valid) (q.appends _ (p.appends w valid).valid);
  reads = Reads-bind d f p.bits q.bits a x p.reads q.reads;
}

-- The end of a sequence: nothing more is written, and the result is put together.
pub RoundTrip-end : {A : Type 0} (a : A) → RoundTrip 0 (λ w. w) (pure a) a
RoundTrip-end a = record {
  bits = [];
  width = refl;
  appends = λ w valid. Writes-refl valid;
  reads = Reads-pure a;
}

-- A fresh writer, and a fresh reader over bytes.
pub new_writer-IsValid : Contents.IsValid new_writer
unfolding new_writer
new_writer-IsValid = record {
  pending = 0;
  nbit_lt = omega arith;
  pending_lt = omega arith;
  aligned = refl;
}

pub contents-new_writer : contents new_writer ≡ []
unfolding contents new_writer to_bits bytes_bits
contents-new_writer = refl

-- The source that hands out `body` and ends, as `bytes.NewReader(body)` does.
abbrev pub source_of : List ℕ → Source
source_of body = finish body eof

pub new_reader-IsValid : (s : Source) → Pending.IsValid (new_reader s)
unfolding new_reader new_reader_size
new_reader-IsValid s = record {
  value = 0;
  holds = record { aligned = refl; fits = omega arith; narrow = omega arith };
  r_le = omega arith;
  size_ge = omega arith;
}

pub pending-new_reader : (body : List ℕ) → pending (new_reader (source_of body)) ≡ bytes_bits body
unfolding new_reader new_reader_size pending held coming delivered to_bits bytes_bits
pending-new_reader body = refl

pub RoundTrip-done : {A : Type 0} (a : A) {x : A} → a ≡ x → RoundTrip 0 (λ w. w) (pure a) x
RoundTrip-done a e = rw (sym e) (RoundTrip-end a)

pub RoundTrip-width :
    {A : Type 0} {m n : ℕ} {e : Writer → Writer} {d : M A} {a : A}
    → m ≡ n
    → RoundTrip m e d a
    → RoundTrip n e d a
RoundTrip-width {e = e} {d = d} {a = a} h p = subst (λ (k : ℕ). RoundTrip k e d a) h p

-- A buffer of whole bytes that a fresh writer fills, and a fresh reader over it.
pub RoundTrip-buffer :
    {A : Type 0} {e : Writer → Writer} {d : M A} {a : A} (k : ℕ)
    → RoundTrip (k * 8) e d a
    → (length (bytes (e new_writer)).0 ≡ k)
      × ((b : Reader) × (d (new_reader (source_of (bytes (e new_writer)).0)) ≡ ok a b))
RoundTrip-buffer {e = e} {d = d} {a = a} k p =
    let w : Writer = e new_writer in
    let t = p.appends new_writer new_writer-IsValid in
    let all : contents w ≡ p.bits =
      t.appended ∙ ap (λ (l : List ℕ). l ++ p.bits) contents-new_writer in
    let len : length (contents w) ≡ k * 8 = ap (λ (l : List ℕ). length l) all ∙ p.width in
    let (same, kept) = bytes-contents w k t.valid len in
    let body : List ℕ = (bytes w).0 in
    let front : pending (new_reader (source_of body)) ≡ p.bits ++ [] =
      pending-new_reader body ∙ same ∙ all ∙ sym (append-nil p.bits) in
    let (b, run, valid, rest) =
      p.reads (new_reader (source_of body)) [] (new_reader-IsValid (source_of body)) front in
    (omega (arith, length-bytes_bits body, ap (λ (l : List ℕ). length l) same, len), (b, run))
