-- ===== src/Archive.antt =====
-- b_find.c with b_builder_write_file() of b_builder.c as its callback: the archive of a tree of directories.
use archive_tar_builder.Prelude.{
  ℕ, zero, suc, ◌^◌, ◌<◌, ◌≡◌, refl, sym, ap, ◌∙◌, subst, false, Option, none, some, List, [], ◌∷◌,
  ◌++◌, Bytes, length, arith, add64, append-nil, append_assoc, length-append,
}
use archive_tar_builder.Buffer.Stream.{Streams}
use archive_tar_builder.Errors.{ℤ, pos, negsuc}
use archive_tar_builder.Errors
use archive_tar_builder.Header.Layout.{Header}
use archive_tar_builder.Member.{header_for_file}
use archive_tar_builder.Contents.{File}
use archive_tar_builder.Builder.{Builder, System}
use archive_tar_builder.Builder.Long.{longlink_path}
use archive_tar_builder.Builder.Write.{
  Written, written, refused, unfinished, lookup_for, write_file,
}
use archive_tar_builder.Builder.Stream.{IsReadable, Wrote, member_bytes}
use archive_tar_builder.Builder.LongNames.{LongNames}
use archive_tar_builder.Builder.Sends.{Named, write_file-Wrote}
use archive_tar_builder.Find.{Walker, Callback, Search, returned}
use archive_tar_builder.Find.Loop.{find_loop}
use archive_tar_builder.Find.Walk.{Forest, names, HasForest, forest_rounds}
use archive_tar_builder.Find.Order.{Call, Calls, Runs, no_calls, call, find_loop-Calls}

-- What b_builder_write_file() returns, as b_find() gets it.
unfoldable pub callback_answer : Walker Unit → Written → ℤ × Walker Unit
callback_answer w (written b file) = (pos 1, record w { builder = b })
callback_answer w (refused b file) = (negsuc 0, record w { builder = b })
callback_answer w unfinished = (negsuc 0, w)

-- The file that stands behind a descriptor, if that is above 0; `files` has what the descriptor of each
-- path reads.
unfoldable pub file_at : (Bytes → File) → Bytes → ℤ → Option File
file_at files path (pos zero) = none
file_at files path (pos (suc n)) = some (files path)
file_at files path (negsuc n) = none

-- B_FIND_CALLBACK(b_builder_write_file); `system` is what the system says about each path.
unfoldable pub write_member : (Bytes → System) → (Bytes → File) → Callback Unit
unfolding callback_answer file_at
write_member system_of files w path name st fd =
    callback_answer w (write_file (system_of path) w.builder path name st (file_at files path fd))

-- A member can be archived by the builder, and these are the bytes that are sent for it.
pub record IsMember (sys : System) (file : Option File) (b : Builder) (c : Call) (bytes : Bytes)
    : Type 0 where
  pub header : Header
  pub named : Header
  pub front : Bytes
  pub header_eq :
      header_for_file sys.device_major sys.device_minor (lookup_for b c.name) sys.link c.name c.st
      ≡ some header
  pub users : Named b.user_lookup c.st header named
  pub readable : IsReadable named file
  pub long_names : LongNames sys b.options named (longlink_path c.name c.st) front
  pub bytes_eq : bytes ≡ front ++ member_bytes sys named file

module _ (system_of : Bytes → System) (files : Bytes → File) where
  -- So can all of them, and these are their bytes, one behind the other.
  pub data AreMembers (b : Builder) : List Call → Bytes → Type 0 where
    no_members : AreMembers b [] []
    member :
        {c : Call} {calls : List Call} {v w : Bytes}
        → IsMember (system_of c.path) (file_at files c.path c.fd) b c v
        → AreMembers b calls w
        → AreMembers b (c ∷ calls) (v ++ w)

  -- What a builder has written does not matter for what it can archive.
  AreMembers-moved :
      (b b' : Builder) {calls : List Call} {v : Bytes}
      → b'.options ≡ b.options
      → b'.user_lookup ≡ b.user_lookup
      → b'.hardlink_lookup ≡ b.hardlink_lookup
      → AreMembers b calls v
      → AreMembers b' calls v
  unfolding lookup_for
  AreMembers-moved b b' o u l no_members = no_members
  AreMembers-moved b b' o u l (member {c = c} {v = v} m rest) =
      member
        (record {
          header = m.header;
          named = m.named;
          front = m.front;
          header_eq =
              subst
                (λ service.
                  header_for_file (system_of c.path).device_major (system_of c.path).device_minor
                    (lookup_for (record b { hardlink_lookup = service }) c.name)
                    (system_of c.path).link c.name c.st
                  ≡ some m.header)
                (sym l) m.header_eq;
          users = subst (λ service. Named service c.st m.header m.named) (sym u) m.users;
          readable = m.readable;
          long_names =
              subst
                (λ options.
                  LongNames (system_of c.path) options m.named (longlink_path c.name c.st) m.front)
                (sym o) m.long_names;
          bytes_eq = m.bytes_eq;
        })
        (AreMembers-moved b b' o u l rest)

  -- One member
  write_member-sends :
      (w : Walker Unit) {s : Bytes} (c : Call) (v : Bytes)
      → IsMember (system_of c.path) (file_at files c.path c.fd) w.builder c v
      → Streams w.builder.ch s
      → w.builder.ch.buf.can_splice ≡ false
      → w.builder.total < 2 ^ 64
      → Wrote
          (write_file (system_of c.path) w.builder c.path c.name c.st (file_at files c.path c.fd))
          (record w.builder { err = Errors.clear w.builder.err })
          s
          v
  write_member-sends w {s} c v m h no_splice small =
      subst
        (λ bytes.
          Wrote
            (write_file (system_of c.path) w.builder c.path c.name c.st (file_at files c.path c.fd))
            (record w.builder { err = Errors.clear w.builder.err }) s bytes)
        (sym m.bytes_eq)
        (write_file-Wrote (system_of c.path) w.builder c.path c.name c.st
          (file_at files c.path c.fd) m.header m.named h no_splice small m.header_eq m.users
          m.readable m.long_names)

  -- The walker when the members were archived
  record Archives (w : Walker Unit) (calls : List Call) (s v : Bytes) : Type 0 where
    after : Walker Unit
    runs : Runs (write_member system_of files) w calls after
    streams : Streams after.builder.ch (s ++ v)
    total_eq : after.builder.total ≡ add64 w.builder.total (length v)

  AreMembers-Archives :
      (w : Walker Unit) {s : Bytes} (calls : List Call) {v : Bytes}
      → AreMembers w.builder calls v
      → Streams w.builder.ch s
      → w.builder.ch.buf.can_splice ≡ false
      → w.builder.total < 2 ^ 64
      → Archives w calls s v
  unfolding write_member callback_answer
  AreMembers-Archives w {s} [] no_members h no_splice small = record {
    after = w;
    runs = no_calls;
    streams = subst (Streams w.builder.ch) (sym (append-nil s)) h;
    total_eq = omega arith;
  }
  AreMembers-Archives w {s} (c ∷ calls) (member {v = v} {w = bytes} m rest) h no_splice small =
      let done = write_member-sends w c v m h no_splice small in
      let w1 : Walker Unit = record w {
        builder = record w.builder {
          err = Errors.clear w.builder.err;
          ch = done.ch;
          total = add64 w.builder.total (length v);
        };
      } in
      let later =
        AreMembers-Archives w1 calls (AreMembers-moved w.builder w1.builder refl refl refl rest)
          done.streams done.kept (omega arith) in
      record {
        after = later.after;
        runs = call 0 (ap (callback_answer w) done.written_eq) refl later.runs;
        streams = subst (Streams later.after.builder.ch) (append_assoc s v bytes) later.streams;
        total_eq = later.total_eq ∙ omega (arith, length-append v bytes);
      }

  -- Archiving the tree beneath a directory, without patterns and without splice: where the system has a
  -- finite tree there, every entry can be reached, and every member can be archived, the loop of
  -- b_find() with b_builder_write_file() as its callback returns 0, and what is sent behind the stream
  -- `s` are the members' headers and contents, in the order of the walk, a directory before what is
  -- beneath it; the builder's total has grown by the number of these bytes, modulo 2^64.
  pub find_loop-Streams :
      (q : Search Unit) (f : Forest) (calls : List Call) (fuel : ℕ) (w : Walker Unit) (path : Bytes)
      {s v : Bytes}
      → q.callback ≡ write_member system_of files
      → Calls q path f calls
      → HasForest q.fs path f
      → forest_rounds f < fuel
      → w.builder.matching ≡ none
      → AreMembers w.builder calls v
      → Streams w.builder.ch s
      → w.builder.ch.buf.can_splice ≡ false
      → w.builder.total < 2 ^ 64
      → (w' : Walker Unit) × (find_loop q fuel w (record { path = path; names = names f } ∷ [])
          ≡ returned (pos 0) w')
        × Streams w'.builder.ch (s ++ v)
        × (w'.builder.total ≡ add64 w.builder.total (length v))
  find_loop-Streams q f calls fuel w path {s} {v} same listed has enough bare members h no_splice
        small =
      let done = AreMembers-Archives w calls members h no_splice small in
      (
        done.after,
        find_loop-Calls q f calls fuel w done.after path listed has enough bare
            (subst (λ callback. Runs callback w calls done.after) (sym same) done.runs),
        done.streams,
        done.total_eq,
      )
