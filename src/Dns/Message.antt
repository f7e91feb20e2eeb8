-- ===== src/Dns/Message.antt =====
-- dns/dns.go: the questions and resources of a message, and their decoding. A slice to decode into is
-- the list of the entries that it has the capacity for; a nil slice is `none`.
use lneto.Base.{
  ℕ, zero, suc, ◌+◌, ◌-◌, ◌%◌, ◌^◌, Option, none, some, List, [], ◌∷◌, ltb, ◌==◌, if◌then◌else◌,
  length, take, drop,
}
use lneto.Tcp.Frame.{uint16, uint32}
use lneto.Dns.{
  Error, truncated, resource_len, Visit, visited, out_of_range, out_of_fuel, visit_all_labels,
}
use lneto.Dns.Name.{Name, decode_name}

pub record Question : Type 0 where
  pub name : Name
  pub kind : ℕ
  pub class : ℕ

pub record ResourceHeader : Type 0 where
  pub name : Name
  pub kind : ℕ
  pub class : ℕ
  pub ttl : ℕ
  pub size : ℕ

pub record Resource : Type 0 where
  pub header : ResourceHeader
  pub raw : List ℕ

abbrev pub cname : ℕ
cname = 5

-- After a name: what follows it is read, unless the name had an error.
unfoldable pub then_read {ℓ κ} :
    {S : Type ℓ} {T : Type κ} → Visit S → (S → ℕ → Error → Visit T) → (S → ℕ → Visit T) → Visit T
then_read (visited s off (some e)) fail read = fail s off e
then_read (visited s off none) fail read = read s off
then_read out_of_range fail read = out_of_range
then_read out_of_fuel fail read = out_of_fuel

-- `Question.Decode`. The reads go past the end when `off + 4` has wrapped.
unfoldable pub decode_question : Question → List ℕ → ℕ → Visit Question
unfolding then_read decode_name uint16
decode_question q msg off =
    then_read (decode_name msg off)
      (λ n off e. visited (record { name = n; kind = q.kind; class = q.class }) off (some e))
      (λ n off.
        if ltb (length msg % 2 ^ 16) ((off + 4) % 2 ^ 16)
        then visited (record { name = n; kind = q.kind; class = q.class }) off (some resource_len)
        else if ltb (length msg) (off + 4)
        then out_of_range
        else visited (record { name = n; kind = uint16 msg off; class = uint16 msg (off + 2) })
            ((off + 4) % 2 ^ 16) none)

-- `ResourceHeader.Decode`. The reads go past the end when `off + 10` has wrapped.
unfoldable pub decode_header : ResourceHeader → List ℕ → ℕ → Visit ResourceHeader
unfolding then_read decode_name uint16 uint32
decode_header h msg off =
    then_read (decode_name msg off)
      (λ n off e.
        visited (record { name = n; kind = h.kind; class = h.class; ttl = h.ttl; size = h.size })
          off (some e))
      (λ n off.
        if ltb (length msg % 2 ^ 16) ((off + 10) % 2 ^ 16)
        then visited
            (record { name = n; kind = h.kind; class = h.class; ttl = h.ttl; size = h.size }) off
            (some resource_len)
        else if ltb (length msg) (off + 10)
        then out_of_range
        else visited
            (record {
              name = n;
              kind = uint16 msg off;
              class = uint16 msg (off + 2);
              ttl = uint32 msg (off + 4);
              size = uint16 msg (off + 8);
            })
            ((off + 10) % 2 ^ 16) none)

-- The data of a record that is kept as it stands in the message.
unfoldable pub plain_data : ResourceHeader → List ℕ → ℕ → Visit Resource
plain_data h b off =
    visited (record { header = h; raw = take h.size (drop off b) }) ((off + h.size) % 2 ^ 16) none

-- The data of a CNAME record: a name, which is expanded.
unfoldable pub cname_data : ResourceHeader → List ℕ → ℕ → Visit Name → Visit Resource
unfolding plain_data
cname_data h b off (visited n off' none) =
    visited
      (record {
        header = record {
          name = h.name;
          kind = h.kind;
          class = h.class;
          ttl = h.ttl;
          size = length n % 2 ^ 16;
        };
        raw = n;
      })
      ((off + h.size) % 2 ^ 16) none
cname_data h b off (visited n off' (some e)) = plain_data h b off
cname_data h b off out_of_range = out_of_range
cname_data h b off out_of_fuel = out_of_fuel

-- `Resource.Decode`
unfoldable pub decode_resource : Resource → List ℕ → ℕ → Visit Resource
unfolding then_read decode_header plain_data cname_data decode_name
decode_resource r b off =
    then_read (decode_header r.header b off)
      (λ h off e. visited (record { header = h; raw = r.raw }) off (some e))
      (λ h off.
        if ltb (length (drop off b) % 2 ^ 16) h.size
        then visited (record { header = h; raw = r.raw }) off (some resource_len)
        else if h.kind == cname
        then cname_data h b off (decode_name b off)
        else plain_data h b off)

unfoldable pub skip_name : List ℕ → ℕ → Visit {0} Unit
unfolding visit_all_labels
skip_name msg off = visit_all_labels (λ s label. s) msg off tt

unfoldable pub skip_question : List ℕ → ℕ → Visit {0} Unit
unfolding then_read skip_name
skip_question msg off =
    then_read (skip_name msg off) (λ s off e. visited tt off (some e))
      (λ s off.
        if ltb (length msg % 2 ^ 16) ((off + 4) % 2 ^ 16)
        then visited tt off (some truncated)
        else visited tt ((off + 4) % 2 ^ 16) none)

-- The length is read at `off + 8` whether the message goes on so far or not.
unfoldable pub skip_resource : List ℕ → ℕ → Visit {0} Unit
unfolding then_read skip_name uint16
skip_resource msg off =
    then_read (skip_name msg off) (λ s off e. visited tt off (some e))
      (λ s off.
        if ltb (length msg) ((off + 8) % 2 ^ 16 + 2)
        then out_of_range
        else let off' = (off + (uint16 msg ((off + 8) % 2 ^ 16) + 10) % 2 ^ 16) % 2 ^ 16 in
          if ltb (length msg % 2 ^ 16) off'
          then visited tt off' (some truncated)
          else visited tt off' none)

-- The loop that decodes into the entries of a slice, which ends before the entry that fails.
unfoldable pub decode_each {ℓ} :
    {S : Type ℓ} → (S → List ℕ → ℕ → Visit S) → List S → List ℕ → ℕ → Visit (List S)
unfolding then_read
decode_each decode [] msg off = visited [] off none
decode_each decode (r ∷ rs) msg off =
    then_read (decode r msg off) (λ r' off e. visited [] off (some e))
      (λ r' off.
        then_read (decode_each decode rs msg off) (λ done off e. visited (r' ∷ done) off (some e))
          (λ done off. visited (r' ∷ done) off none))

-- The loop that skips the entries that are not decoded.
unfoldable pub skip_each : (List ℕ → ℕ → Visit {0} Unit) → ℕ → List ℕ → ℕ → Visit {0} Unit
unfolding then_read
skip_each skip zero msg off = visited tt off none
skip_each skip (suc n) msg off =
    then_read (skip msg off) (λ s off e. visited tt off (some e))
      (λ s off. skip_each skip n msg off)

-- After the decoded entries, the others are skipped.
unfoldable pub and_skip {ℓ} : {S : Type ℓ} → Visit (List S) → (ℕ → Visit {0} Unit) → Visit (List S)
unfolding then_read
and_skip decoded skip =
    then_read decoded (λ done off e. visited done off (some e))
      (λ done off.
        then_read (skip off) (λ s off e. visited done off (some e))
          (λ s off. visited done off none))

unfoldable pub decode_to_cap_resources :
    Option (List Resource) → List ℕ → ℕ → ℕ → Visit (List Resource)
unfolding decode_each skip_each and_skip decode_resource skip_resource
decode_to_cap_resources none msg nrec off =
    and_skip (visited [] off none) (λ off. skip_each skip_resource nrec msg off)
decode_to_cap_resources (some dst) msg nrec off =
    let n = if ltb (length dst % 2 ^ 16) nrec then length dst % 2 ^ 16 else nrec in
    and_skip (decode_each decode_resource (take n dst) msg off)
      (λ off. skip_each skip_resource (nrec - n) msg off)
