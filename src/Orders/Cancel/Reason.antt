-- ===== src/Orders/Cancel/Reason.antt =====
-- The reasons of a cancellation, of
-- src/modules/orders/infrastructure/persistence/prisma-orders.repository.ts.
use campusgig_backend.Prelude.{Option, none, some, [], ◌∷◌, ◌++◌, text}
use campusgig_backend.Db.Types.{Text, Party, CancellationReasonCode}
use campusgig_backend.Db.Table.{order_keyed, cancellation_keyed}

-- `CANCELLATION_REASON_LABELS`
unfoldable pub cancellation_reason_label : CancellationReasonCode → Text
cancellation_reason_label CancellationReasonCode.buyer_situation_changed =
    text "My situation changed — I no longer need this"
cancellation_reason_label CancellationReasonCode.buyer_ordered_by_mistake =
    text "Ordered by mistake"
cancellation_reason_label CancellationReasonCode.buyer_agreed_in_chat =
    text "We agreed to cancel in chat"
cancellation_reason_label CancellationReasonCode.buyer_other = text "Other"
cancellation_reason_label CancellationReasonCode.seller_schedule_conflict =
    text "Schedule conflict — can't deliver in time"
cancellation_reason_label CancellationReasonCode.seller_requirements_mismatch =
    text "Requirements turned out to be different than expected"
cancellation_reason_label CancellationReasonCode.seller_agreed_in_chat =
    text "We agreed to cancel in chat"
cancellation_reason_label CancellationReasonCode.seller_other = text "Other"

-- An absent or empty text adds nothing.
unfoldable pub format_cancellation_reason : CancellationReasonCode → Option Text → Text
unfolding cancellation_reason_label
format_cancellation_reason code none = cancellation_reason_label code
format_cancellation_reason code (some []) = cancellation_reason_label code
format_cancellation_reason code (some (c ∷ cs)) =
    cancellation_reason_label code ++ (text " — " ++ (c ∷ cs))

-- Whose reason it is: the prefix of the code's name.
unfoldable pub reason_side : CancellationReasonCode → Party
reason_side CancellationReasonCode.buyer_situation_changed = Party.buyer
reason_side CancellationReasonCode.buyer_ordered_by_mistake = Party.buyer
reason_side CancellationReasonCode.buyer_agreed_in_chat = Party.buyer
reason_side CancellationReasonCode.buyer_other = Party.buyer
reason_side _ = Party.seller
