-- ===== src/Dns/Tests.antt =====
-- dns/dns.go: runs of the walk and of the codec, and the theorems at concrete messages.
use lneto.Base.{
  ℕ, ◌^◌, ◌≤◌, ◌<◌, ◌≡◌, refl, inr, true, false, Option, none, some, List, [], ◌∷◌, arith, length,
  ran,
}
use lneto.Dns.{
  Error, too_many_ptr, exhausted, dot, has_byte, visited, out_of_range, visit_all_labels,
}
use lneto.Dns.Walk.{visit_all_labels_total}
use lneto.Dns.Name.{Name, visit_add_label, decode_name}
use lneto.Dns.Labels.{IsLabel, wire, root, label, no_labels, and_label}
use lneto.Dns.Message.{Question, Resource, skip_resource}
use lneto.Dns.Skips.{skip_resource-out_of_range}
use lneto.Dns.Parse.{Message, decode_message}
use lneto.Dns.Grammar.{decode_message-MessageAt}
use lneto.Dns.Append.{Buf, append_message}
use lneto.Dns.Bytes.{no_entries, and_ok, message_bytes}
use lneto.Dns.Layout.{IsName}
use lneto.Dns.RoundTrip.{IsMessage, message_at, decode_message-append_message}

-- A pointer to itself.
abbrev circle : List ℕ
circle = 0 ∷ 0xc0 ∷ 1 ∷ []

circle_run : decode_name circle 1 ≡ visited [] 3 (some too_many_ptr)
unfolding decode_name
circle_run = refl

visit_all_labels_total_example :
    (s' : Name) × (off' : ℕ) × (err : Option Error) × (visit_all_labels visit_add_label circle 1 []
      ≡ visited s' off' err)
    × (off' ≤ length circle)
    × (err ≡ none → 1 < off')
visit_all_labels_total_example = visit_all_labels_total visit_add_label circle 1 [] (omega arith)

-- The name `a.` at 1, and `b.` with a pointer to it at 4.
abbrev compressed : List ℕ
compressed = 9 ∷ 1 ∷ 97 ∷ 0 ∷ 1 ∷ 98 ∷ 0xc0 ∷ 1 ∷ []

abbrev letter : (c : ℕ) → has_byte (c ∷ []) dot ≡ false → IsLabel (c ∷ [])
letter c e = record { some_byte = omega arith; short = omega arith; no_dot = e }

unfoldable letter_a : IsLabel (97 ∷ [])
unfolding has_byte
letter_a = letter 97 refl

compressed_run : decode_name compressed 4 ≡ visited (1 ∷ 98 ∷ 1 ∷ 97 ∷ 0 ∷ []) 8 none
unfolding decode_name
compressed_run = refl

abbrev name_a : Name
name_a = 1 ∷ 97 ∷ 0 ∷ []

name_a-IsName : IsName name_a
unfolding wire
name_a-IsName = record {
  labels = (97 ∷ []) ∷ [];
  are_labels = and_label letter_a no_labels;
  whole = refl;
}

-- A question for an address, and an answer that the name is an alias of itself.
abbrev alias : Message
alias = record {
  questions = record { name = name_a; kind = 1; class = 1 } ∷ [];
  answers =
      record {
        header = record { name = name_a; kind = 5; class = 1; ttl = 70000; size = 3 };
        raw = name_a;
      }
      ∷ [];
  authorities = [];
  additionals = [];
}

alias-IsMessage : IsMessage alias
alias-IsMessage = record {
  questions =
      and_ok (record { name = name_a-IsName; kind = omega arith; class = omega arith }) no_entries;
  answers =
      and_ok
        (record {
          header = record {
            name = name_a-IsName;
            kind = omega arith;
            class = omega arith;
            ttl = omega arith;
            size = omega arith;
          };
          size = refl;
          data_fits = inr (refl, name_a-IsName);
        })
        no_entries;
  authorities = no_entries;
  additionals = no_entries;
  qd = omega arith;
  an = omega arith;
  ns = omega arith;
  ar = omega arith;
}

abbrev blank_question : Question
blank_question = record { name = []; kind = 0; class = 0 }

abbrev blank_resource : Resource
blank_resource = record {
  header = record { name = []; kind = 0; class = 0; ttl = 0; size = 0 };
  raw = [];
}

abbrev no_room : Buf
no_room = record { bytes = []; room = 0 }

alias_bytes-short : length (message_bytes alias 7 0) < 2 ^ 16
unfolding message_bytes
alias_bytes-short = omega arith

decode_message-append_message_example :
    (b' : Buf) × (append_message (λ a b. 0) alias no_room 7 0 ≡ ran (b', none))
    × (decode_message
          (some (blank_question ∷ []))
          (some (blank_resource ∷ []))
          (some [])
          (some [])
          b'.bytes
        ≡ visited (record { message = alias; incomplete_but_ok = false }) (length b'.bytes) none)
decode_message-append_message_example =
    decode_message-append_message (λ a b. 0) alias no_room 7 0 (blank_question ∷ [])
      (blank_resource ∷ []) [] [] alias-IsMessage alias_bytes-short refl (omega arith)
      (omega arith, omega arith) (omega arith, omega arith) (omega arith, omega arith)

-- Room for the question, and none for the answer.
decode_message-MessageAt_example :
    decode_message
      (some (blank_question ∷ []))
      (some [])
      (some [])
      (some [])
      (message_bytes alias 7 0)
    ≡ visited
        (record {
          message = record {
            questions = record { name = name_a; kind = 1; class = 1 } ∷ [];
            answers = [];
            authorities = [];
            additionals = [];
          };
          incomplete_but_ok = true;
        })
        (length (message_bytes alias 7 0))
        (some exhausted)
decode_message-MessageAt_example =
    decode_message-MessageAt (message_bytes alias 7 0) alias (length (message_bytes alias 7 0))
      (blank_question ∷ []) [] [] [] (message_at alias 7 0 alias-IsMessage alias_bytes-short)
      (omega arith) (omega arith) (omega arith)

-- A message that ends after the name of a record that is skipped.
skip_resource-out_of_range_example : skip_resource (9 ∷ 1 ∷ 97 ∷ 0 ∷ []) 1 ≡ out_of_range
unfolding wire
skip_resource-out_of_range_example =
    skip_resource-out_of_range (9 ∷ 1 ∷ 97 ∷ 0 ∷ []) 1 4 name_a (omega arith)
      (record {
        labels = (97 ∷ []) ∷ [];
        hops = 0;
        here = label (97 ∷ []) (0 ∷ []) letter_a refl (root [] refl);
        few = omega arith;
        expanded = refl;
      })
      (omega arith) (omega arith)
