-- ===== src/Schedulers/Trigger/Immediate.antt =====
-- The operations of the trigger scheduler with the trigger manager that they are handed to, when all
-- its runs are under the immediate policy. The deferred policy, which is the default, is not covered:
-- `dequeue` then takes a task that a run owns out of a list that does not hold it.
