-- ===== src/Lib.antt =====
-- A verification library for the AI receptionist of an immigration law office: a voice agent that
-- answers calls, asks intake questions, scores leads, books consultations, routes calls by the
-- office hours and calls people back.
--
-- How the program is put together. An inbound call is routed first (app/telephony/call_router.py):
-- to the agent, to voicemail with the promise of a callback where the lines are full, or to the
-- after-hours message. The agent keeps one call state (app/voice/conversation_state.py) and a
-- window of turns (app/voice/context_manager.py); after each turn the intake flow
-- (app/agent/intake_flow.py) chooses the next question, an urgency classifier
-- (app/agent/urgency_classifier.py) may score the call, and the lead scorer
-- (app/agent/lead_scorer.py) scores the lead in the end. The agent may offer slots and book one
-- (app/voice/websocket_handler.py, app/scheduling/calendar_service.py). Calls of other services
-- run behind circuit breakers and a retry loop (app/voice/resilience.py). The agent's words are a
-- stream with signals in it (app/agent/llm_agent.py), and what it knows of the law comes from a
-- search of documents (app/rag/retrieval.py). At the end of a call its contact is updated in the
-- CRM (app/crm/contact_manager.py), and the caller may get text messages
-- (app/scheduling/reminders.py). What a call leaves behind is put into queues of Redis that a
-- worker writes to the database (app/logging_analytics/db_worker.py). Callers who were not reached
-- wait in a queue (app/telephony/outbound_callback.py) that the status webhook also writes to.
--
-- Which file models what. Each module below holds the definitions; the modules in its folder prove
-- what they are named for, and its Tests holds runs at concrete inputs.
--   Conversation  CallState with advance_phase, force_phase, increment_turns, record_intake,
--                 missing_intake_fields and intake_complete; score_to_urgency_label; the Redis hash of
--                 to_redis_mapping, from_redis_mapping, load_call_state and save_call_state
--   Agent         ImmigrationAgent of app/agent/llm_agent.py: the stream of respond_stream, check_signals,
--                 the phase markers, the language and the messages
--   Rag           RAGRetriever.retrieve of app/rag/retrieval.py with _rrf_score, _rerank, _mmr_select and
--                 _resolve_parents; build_rag_context of app/rag/context_builder.py
--   Ingestion     DocumentIngester of app/rag/ingestion.py: the chunks of a document, their scores and
--                 vectors, the rows that are stored, and the transcript of a call
--   IntakeFlow    INTAKE_QUESTIONS, next_question, build_next_question_hint
--   Context       ContextManager.add_turn, _compress_old_turns and build_messages
--   Urgency       UrgencyClassifier.classify and _queue_urgency_alert
--   LeadScore     LeadScorer.score and what _cache_lead_score writes
--   Resilience    CircuitBreaker, get_breaker, retry_async
--   Calendar      get_available_slots, format_slots_for_speech, book_appointment
--   TurnLoop      _llm_tts_loop: transcripts, silence, signals and the start of the classifier
--   Booking       _handle_schedule_now and _handle_booking_confirmed
--   CallSession   the transcripts and the intake of _run_call, and _finalize_call, of
--                 app/voice/websocket_handler.py
--   CallRouter    is_office_open, the TwiML answers and route_inbound_call
--   Callback      enqueue_callback, _pop_item, promote_delayed_callbacks, _process_item with its
--                 requeue and its fallback task, _minutes_until_office_open, and the push of call_status_callback
--   Worker        db_worker_loop of app/logging_analytics/db_worker.py with _dispatch and its handlers
--   Crm           app/crm/contact_manager.py: normalise_phone, lookup_caller and sync_call_to_crm with
--                 _queue_db_sync
--   Reminders     app/scheduling/reminders.py: the consent and the text messages
--   CallLog       log_turn, flush_turn_buffer and _write_call_summary_row of
--                 app/logging_analytics/call_logger.py; the merge of the intake in
--                 app/logging_analytics/structured_data.py
--   Chat          app/chat/session.py: the sessions of the web chat and the limit of messages; one message
--                 of chat_websocket of app/chat/router.py, with what it sends and stores
--   Social        route_message, format_reply and the replies of app/social/channel_router.py
--                 and what app/social/webhook_handler.py does with one message
--   Voicemail     process_voicemail of app/telephony/voicemail.py with its task and its row
--   Ghl           app/crm/ghl_client.py: the circuit of the credentials, the token bucket and the methods
--                 of the client
--   Webhooks      app/webhooks/ghl_webhooks.py: which events of GoHighLevel are let in and what they change
--   Dates         get_next_business_days of app/scheduling/slot_cache.py and _next_business_day_iso of
--                 app/telephony/voicemail.py
--   Dict, Value   Python's dict with text keys and the values that JSON can hold
--   Prelude       numbers, integers, texts and lists that all of these share
--
-- How the code is read. A method that mutates its object returns the new object. What a function
-- sends to Redis, Twilio, the CRM or the calendar is a list of effects in the order of the calls;
-- what these answer, the readings of the clock and the replies of the language model are
-- arguments, an exception being one of the answers. A caught exception is written out; one that
-- leaves a handler ends it, and the calls of Redis inside the booking loop are taken not to raise.
-- The lifetime of a key in Redis is modelled for the lock of a slot and the cache of callers; another
-- key is read as if it had not expired.
-- A day is its number in Python's calendar and a time of day its microseconds, so the weekday is a
-- remainder by seven. An `int` of Python that may be negative is an integer, the others are
-- natural numbers; no number of the source has a fixed width. Parameters stand for str(v).lower(),
-- repr(v) and str(n) of Python, quote_plus, json.loads, str.upper, str.lower, str.strip and
-- str.split, extract_field_from_response, the regular expression of a signal line and of a
-- confirmed time, the reader of the office hours in the settings, and the texts that the service
-- layer formats. The numbers of the retrieval are floating: their type, their order, the
-- reciprocal and the diversity score are parameters, and the theorems on the ranking assume that
-- the order is asymmetric and that a larger number has a smaller reciprocal.
--
-- Fuel. Two loops of the source run until a working day is found: the one that skips a weekend has
-- three rounds of fuel, since a weekend has two days; the one that collects n business days has
-- three times n, since one of any three days running is a working day. All other loops follow a
-- list or a number that counts down.
--
-- What is not modelled: the audio streams and speech services, the database
-- layer, the dashboard and its queries, the scripts, the lookups and endpoints of
-- the chat, the endpoints of the social webhooks, and most of those of Twilio. They are input and
-- output, or are still to come. The regular
-- expressions that read an answer out of a caller's words are still to come as well.
pub mod Agent
pub mod Booking
pub mod Calendar
pub mod CallLog
pub mod CallRouter
pub mod CallSession
pub mod Callback
pub mod Chat
pub mod Context
pub mod Conversation
pub mod Crm
pub mod Dates
pub mod Dict
pub mod Ghl
pub mod Ingestion
pub mod IntakeFlow
pub mod LeadScore
pub mod Prelude
pub mod Rag
pub mod Reminders
pub mod Resilience
pub mod Social
pub mod TurnLoop
pub mod Urgency
pub mod Value
pub mod Voicemail
pub mod Webhooks
pub mod Worker
