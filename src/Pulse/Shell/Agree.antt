-- ===== src/Pulse/Shell/Agree.antt =====
-- The Pulse build of the shell refines the legacy one: on a valid connection, with the buffers
-- where C places them, each call gives the same connection and the same answer.
use ism.Prelude.{
  ℕ, ◌^◌, ◌<◌, ◌≡◌, ◌∙◌, inl, inr, refl, sym, ap, subst, arith, Bool, true, Option, none, some,
  Bytes,
}
use ism.Stream.{handle_stream_data, handle_stream_fin, shell_phase_code, message_capacity}
use ism.Table.{
  Connection, max_streams, on_stream, dispatch, dispatch_authenticated_stream_data,
  on_authenticated_stream_fin, complete_response_send, dispatch_response_send_finished,
  dispatch_stream_reset,
}
use ism.Table.Find.{Holds, find_stream-some}
use ism.Table.Valid.{IsValid}
use ism.Table.Open.{open_stream_outcomes}
use ism.Response.{prepare_doq_response_send}
use ism.Response.Framing.{prepare_doq_response_send-cases}
use ism.Pulse.{Buffer, range_ok, disjoint, ingress_data, ingress_fin}
use ism.Pulse.Ingress.{IsApart, ingress_data_lem, ingress_fin_lem}
use ism.Pulse.Tables.{Layout}
use ism.Pulse.Tables.Snapshot.{IsLaidOut, slots-IsSendable}
use ism.Pulse.Tables.Agree.{
  table_find-find_stream, table_open-open_stream, table_close-close_stream,
}
use ism.Pulse.Response.{response_disjoint, source_ok}
use ism.Pulse.Response.Agree.{prepare_doq_response_lem}
use ism.Pulse.Shell.{
  put_stream, data_opened, pulse_dispatch_data, fin_opened, pulse_on_fin, respond_found,
  pulse_prepare_doq_response_send, noticed, pulse_complete_response_send,
  pulse_response_send_finished, sync_closed, pulse_stream_reset,
}

module _ (c : Connection) (layout : Layout) (v : IsValid c) (w : IsLaidOut layout) where
  -- A slot that holds the stream is one of the table, and its buffer is in memory.
  held-lt : {d : Connection} {id p j : ℕ} → IsValid d → Holds d id p j → p < max_streams
  held-lt {d} {j = j} u h =
      subst (λ q. q < max_streams) h.points (u.order_lt j (omega (arith, h.in_use, u.num_le)))

  in_memory :
      (p : ℕ) → p < max_streams → range_ok (layout.message_address p) message_capacity ≡ true
  in_memory p l = unfold disjoint in ground (arith, w.apart p l)

  data_slot :
      (d : Connection) (id p j a : ℕ) (input : Bytes) (len : ℕ)
      → IsValid d
      → Holds d id p j
      → ((q : ℕ) → q < max_streams → IsApart (layout.message_address q) a len)
      → put_stream d p (ingress_data (d.streams p).ctx (layout.message_address p) id a input len)
        ≡ dispatch d p (λ s. handle_stream_data s input len)
  data_slot d id p j a input len u h apart =
      ap (put_stream d p) (
        ap (λ n. ingress_data (d.streams p).ctx (layout.message_address p) n a input len)
          (sym h.has_id)
        ∙ ingress_data_lem (d.streams p).ctx (layout.message_address p) a input len
            (slots-IsSendable u p (held-lt u h)) (in_memory p (held-lt u h))
            (apart p (held-lt u h)))
      ∙ (unfold on_stream in refl)

  pulse_dispatch_data_lem :
      (id a : ℕ) (input : Bytes) (len : ℕ)
      → ((q : ℕ) → q < max_streams → IsApart (layout.message_address q) a len)
      → pulse_dispatch_data c layout id a input len
        ≡ dispatch_authenticated_stream_data c id input len
  unfolding pulse_dispatch_data dispatch_authenticated_stream_data shell_phase_code
  pulse_dispatch_data_lem id a input len apart =
      ap (data_opened layout id a input len) (table_open-open_stream c layout v w id)
      ∙ elim (open_stream_outcomes c id v) [
        | inl (p, e, (j, g), r) ↦ subst Agrees (sym e) (data_slot c id p j a input len v g apart)
        | inr (inl (n, l, e)) ↦ subst Agrees (sym e) refl
        | inr (inr (n, l, (d, p, e, o))) ↦
            let (j, g) = o.held in
            subst Agrees (sym e) (data_slot d id p j a input len o.valid g apart)
      ]
    where
      legacy : Connection × Option ℕ → Connection × ℕ
      legacy (d, none) = (d, 3)
      legacy (d, some p) = dispatch d p (λ s. handle_stream_data s input len)

      Agrees : Connection × Option ℕ → Type 0
      Agrees r = data_opened layout id a input len r ≡ legacy r

  fin_slot :
      (d : Connection) (id p j : ℕ)
      → IsValid d
      → Holds d id p j
      → put_stream d p (ingress_fin (d.streams p).ctx (layout.message_address p))
        ≡ dispatch d p handle_stream_fin
  fin_slot d id p j u h =
      ap (put_stream d p) (
        ingress_fin_lem (d.streams p).ctx (layout.message_address p)
          (slots-IsSendable u p (held-lt u h)) (in_memory p (held-lt u h)))
      ∙ (unfold on_stream in refl)

  pulse_on_fin_lem : (id : ℕ) → pulse_on_fin c layout id ≡ on_authenticated_stream_fin c id
  unfolding pulse_on_fin on_authenticated_stream_fin
  pulse_on_fin_lem id =
      ap (fin_opened layout) (table_open-open_stream c layout v w id)
      ∙ elim (open_stream_outcomes c id v) [
        | inl (p, e, (j, g), r) ↦ subst Agrees (sym e) (fin_slot c id p j v g)
        | inr (inl (n, l, e)) ↦ subst Agrees (sym e) refl
        | inr (inr (n, l, (d, p, e, o))) ↦
            let (j, g) = o.held in subst Agrees (sym e) (fin_slot d id p j o.valid g)
      ]
    where
      legacy : Connection × Option ℕ → Connection × ℕ
      legacy (d, none) = (d, 3)
      legacy (d, some p) = dispatch d p handle_stream_fin

      Agrees : Connection × Option ℕ → Type 0
      Agrees r = fin_opened layout r ≡ legacy r

  -- Bytes for a stream that lie apart from every message buffer, or are none, and FIN: the Pulse
  -- build of both calls gives the connection and the code of the legacy one.
  pub pulse_ingress_lem :
      (id a : ℕ) (input : Bytes) (len : ℕ)
      → ((q : ℕ) → q < max_streams → IsApart (layout.message_address q) a len)
      → (pulse_dispatch_data c layout id a input len
          ≡ dispatch_authenticated_stream_data c id input len)
        × (pulse_on_fin c layout id ≡ on_authenticated_stream_fin c id)
  pulse_ingress_lem id a input len apart =
      (pulse_dispatch_data_lem id a input len apart, pulse_on_fin_lem id)

  -- A response, with the contexts, the response and the send buffer apart: the Pulse build frames it
  -- with the length and the bytes of the legacy one.
  pub pulse_prepare_doq_response_send_lem :
      (context_address : ℕ → ℕ) (context_size id : ℕ) (response out : Buffer) (fin : Bool)
      → response.size < 2 ^ 32
      → ((p : ℕ)
          → p < max_streams
          → response_disjoint (context_address p) context_size out.address out.size ≡ true)
      → source_ok response out ≡ true
      → pulse_prepare_doq_response_send c layout context_address context_size id response out fin
        ≡ prepare_doq_response_send c id response.bytes response.size out.bytes out.size fin
  unfolding pulse_prepare_doq_response_send
  pulse_prepare_doq_response_send_lem context_address context_size id response out fin l d o =
      ap (respond_found c context_address context_size response out fin)
        (table_find-find_stream c layout v w id)
      ∙ elim (prepare_doq_response_send-cases c id response.bytes response.size out.bytes out.size
          fin) [
            | inl (e, q) ↦
                ap (respond_found c context_address context_size response out fin) e ∙ sym q
            | inr (p, e, q) ↦
                let (j, h) = find_stream-some c id p e in
                ap (respond_found c context_address context_size response out fin) e
                ∙ prepare_doq_response_lem (context_address p) context_size (c.streams p).ctx
                    response out fin l (d p (held-lt v h)) o
                ∙ sym q
          ]

  -- A completion, by either entry point, and a reset: the Pulse build gives the connection and the
  -- answer of the legacy one.
  pub pulse_close_lem :
      (id : ℕ) (dropped : Bool)
      → (pulse_complete_response_send c layout id dropped ≡ complete_response_send c id dropped)
        × (pulse_response_send_finished c layout id dropped
            ≡ dispatch_response_send_finished c id dropped)
        × (pulse_stream_reset c layout id ≡ dispatch_stream_reset c id)
  unfolding pulse_complete_response_send pulse_response_send_finished pulse_stream_reset
      complete_response_send dispatch_response_send_finished dispatch_stream_reset
  pulse_close_lem id dropped =
      let e = table_close-close_stream c layout v w id in
      (ap (noticed id) e, ap (noticed id) e, ap sync_closed e)
